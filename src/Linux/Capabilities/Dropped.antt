-- ===== src/Linux/Capabilities/Dropped.antt =====
-- What `drop_all` of native/src/linux/capabilities.rs has done when it returns.
use mathlib.Core.Path.{subst}
use mathlib.Core.List.{append-nil}
use micro_sandbox.Prelude.{
  ℕ, zero, suc, ◌≡◌, refl, sym, ◌∙◌, ap, true, not, List, [], ◌∷◌, ◌++◌, arith,
}
use micro_sandbox.Error.{ok, refuse_if-ok, >>=-eq-ok}
use micro_sandbox.Linux.{Call, bounding_drop, capset_none, ambient_clear_all, Kernel}
use micro_sandbox.Linux.Trace.{
  Does, Exactly, Does-lift, Does-perform, exactly_then, weaken, run_ok, Does-from, Does-observe,
  follow-eq-ok,
}
use micro_sandbox.Linux.Masks.{
  CapabilityMasks, no_capabilities, masks_eq, capability_masks, check_masks,
}
use micro_sandbox.Linux.Capabilities.{last_capability, drop_bounding, drop_up_to, drop_all}

abbrev pub dropped : ℕ → ℕ → List Call
dropped zero capability = []
dropped (suc n) capability = bounding_drop capability ∷ dropped n (suc capability)

-- What is called, for the capabilities up to the last one.
abbrev pub dropping_calls : ℕ → List Call
dropping_calls last = dropped (suc last) 0 ++ capset_none ∷ ambient_clear_all ∷ []

drop_bounding-Does :
    (k : Kernel) (n capability : ℕ)
    → Does (drop_bounding k n capability) (Exactly λ _. dropped n capability)
unfolding drop_bounding
drop_bounding-Does k zero capability = Does-lift (ok tt)
drop_bounding-Does k (suc n) capability =
    exactly_then (Does-perform k _ (bounding_drop capability) refl)
      λ _. drop_bounding-Does k n (suc capability)

drop_up_to-Does :
    (k : Kernel) (last : ℕ) → Does (drop_up_to k last) (Exactly λ _. dropping_calls last)
unfolding drop_up_to
drop_up_to-Does k last = exactly_then (drop_bounding-Does k (suc last) 0) λ _.
    exactly_then (Does-perform k _ capset_none refl) λ _. Does-perform k _ ambient_clear_all refl

pub drop_all-Does :
    (k : Kernel) → Does (drop_all k) (Exactly λ before. dropping_calls (last_capability k before))
unfolding drop_all
drop_all-Does k = Does-from {P = λ now. Exactly λ _. dropping_calls (last_capability k now)} λ now.
    weaken
      (exactly_then (drop_up_to-Does k (last_capability k now)) λ _. Does-observe (check_masks k))
      λ before calls eq. (eq ∙ append-nil (dropping_calls (last_capability k now)))

all_zero : (m : CapabilityMasks) (zeros : masks_eq m no_capabilities ≡ true) → m ≡ no_capabilities
all_zero m zeros =
    let a : m.inheritable ≡ 0 = ground arith in
    let b : m.permitted ≡ 0 = ground arith in
    let c : m.effective ≡ 0 = ground arith in
    let d : m.bounding ≡ 0 = ground arith in
    let e : m.ambient ≡ 0 = ground arith in
    λ i. record {
      inheritable = a i;
      permitted = b i;
      effective = c i;
      bounding = d i;
      ambient = e i;
    }

check_masks_ok :
    (k : Kernel) (log : List Call)
    → check_masks k log ≡ ok tt
    → capability_masks k log ≡ ok no_capabilities
unfolding check_masks
check_masks_ok k log h =
    let (masks, read, checked) = >>=-eq-ok (capability_masks k log) _ h in
    let same = refuse_if-ok (not (masks_eq masks no_capabilities)) _ checked in
    read ∙ ap ok (all_zero masks (ground (arith, same)))

-- When `drop_all` returns without an error, it has asked the kernel to take every capability from
-- 0 to the last one out of the bounding set, to empty the permitted, effective and inheritable
-- sets, and to clear the ambient set, and has called nothing else; and the five masks that the
-- kernel reports after that are all zero.
pub drop_all-no_capabilities :
    (k : Kernel) (log log' : List Call)
    → drop_all k log ≡ (ok tt, log')
    → (log' ≡ log ++ dropping_calls (last_capability k log))
      × (capability_masks k log' ≡ ok no_capabilities)
unfolding drop_all
drop_all-no_capabilities k log log' h =
    let (_, after, ran, checked) = follow-eq-ok (drop_up_to k (last_capability k log) log) _ h in
    let (calls, eq, p) = run_ok (drop_up_to-Does k (last_capability k log)) log after tt ran in
    let same : after ≡ log' = ap (λ r. r.1) checked in
    (
      sym same ∙ eq ∙ ap (λ l. log ++ l) p,
      check_masks_ok k log' (subst (λ l. check_masks k l ≡ ok tt) same (ap (λ r. r.0) checked)),
    )
