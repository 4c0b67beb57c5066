-- ===== src/Job/Output/Claims.antt =====
-- What a thread of native/src/job.rs claims of the output budget, and what it keeps of its stream.
use mathlib.Core.Path.{subst}
use mathlib.Core.List.{append_assoc, append-nil}
use micro_sandbox.Prelude.{
  ℕ, zero, suc, ◌+◌, ◌-◌, ◌≡◌, refl, ap, sym, ◌∙◌, min, List, [], ◌∷◌, ◌++◌, length, drop,
  length-append, arith, ◌⊎◌, inl, inr,
}
use micro_sandbox.Protocol.{Bytes}
use micro_sandbox.Job.Output.{claim_loop, claim_output_bytes, take, Stream, stdout, stderr, Round}

-- A round's bytes, in front of what the guest writes later to the stream `s`.
abbrev pub prepend : Stream → Stream → Bytes → Bytes → Bytes
prepend stdout stdout bytes later = bytes ++ later
prepend stderr stderr bytes later = bytes ++ later
prepend _ _ bytes later = later

-- What the guest has written to a stream.
abbrev pub written : Stream → List Round → Bytes
written s [] = []
written s (r ∷ rest) = prepend s r.stream r.bytes (written s rest)

abbrev pub IsPrefix : Bytes → Bytes → Type 0
IsPrefix kept all = (rest : Bytes) × (kept ++ rest ≡ all)

claim_loop-last :
    (requested available remaining : ℕ) (stale : List ℕ)
    → claim_loop requested available (stale ++ remaining ∷ [])
      ≡ (min requested remaining, remaining - min requested remaining)
unfolding claim_loop
claim_loop-last requested available remaining [] = refl
claim_loop-last requested available remaining (v ∷ stale) =
    claim_loop-last requested v remaining stale

-- Whatever was seen before, the counter gives what it has at the exchange.
pub claim_output_bytes-min :
    (requested remaining : ℕ) (stale : List ℕ)
    → claim_output_bytes requested remaining stale
      ≡ (min requested remaining, remaining - min requested remaining)
unfolding claim_output_bytes claim_loop
claim_output_bytes-min requested remaining [] = refl
claim_output_bytes-min requested remaining (v ∷ stale) = claim_loop-last requested v remaining stale

take-drop : (n : ℕ) (bytes : Bytes) → take n bytes ++ drop n bytes ≡ bytes
take-drop zero bytes = refl
take-drop (suc n) [] = refl
take-drop (suc n) (b ∷ bytes) = ap (◌∷◌ b) (take-drop n bytes)

pub length-take : (n : ℕ) (bytes : Bytes) → length (take n bytes) ≡ min n (length bytes)
length-take zero bytes = omega arith
length-take (suc n) [] = omega arith
length-take (suc n) (b ∷ bytes) = omega (arith, length-take n bytes)

length-drop : (n : ℕ) (bytes : Bytes) → length (drop n bytes) ≡ length bytes - n
length-drop zero bytes = omega arith
length-drop (suc n) [] = omega arith
length-drop (suc n) (b ∷ bytes) = omega (arith, length-drop n bytes)

-- What a thread has kept of a stream: all of it, as long as there is something left of the budget.
pub record Part (kept all : Bytes) (remaining : ℕ) : Type 0 where
  pub rest : Bytes
  pub split : kept ++ rest ≡ all
  pub whole : (length rest ≡ 0) ⊎ (remaining ≡ 0)

pub Part-length :
    {kept all : Bytes} {remaining : ℕ} (p : Part kept all remaining)
    → length kept + length p.rest ≡ length all
Part-length {kept} p = sym (length-append kept p.rest) ∙ ap length p.split

extend_whole :
    (kept bytes : Bytes) (remaining : ℕ)
    → Part
        (kept ++ take (min (length bytes) remaining) bytes)
        (kept ++ bytes)
        (remaining - min (length bytes) remaining)
extend_whole kept bytes remaining =
    let k = min (length bytes) remaining in
    record {
      rest = drop k bytes;
      split =
          append_assoc kept (take k bytes) (drop k bytes) ∙ ap (λ x. kept ++ x) (take-drop k bytes);
      whole = ground (arith, length-drop k bytes);
    }

no_rest : (kept rest : Bytes) → length rest ≡ 0 → kept ++ rest ≡ kept
no_rest kept [] h = append-nil kept
no_rest kept (b ∷ rest) h = absurd (omega (arith, h))

take_none : (n : ℕ) (kept bytes : Bytes) → n ≡ 0 → kept ++ take n bytes ≡ kept
take_none n kept bytes h = ap (λ k. kept ++ take k bytes) h ∙ append-nil kept

Part-split :
    (kept rest bytes : Bytes) (remaining : ℕ)
    → (length rest ≡ 0) ⊎ (remaining ≡ 0)
    → Part
        (kept ++ take (min (length bytes) remaining) bytes)
        ((kept ++ rest) ++ bytes)
        (remaining - min (length bytes) remaining)
Part-split kept rest bytes remaining (inl h) =
    subst
      (λ x.
        Part (kept ++ take (min (length bytes) remaining) bytes) (x ++ bytes)
          (remaining - min (length bytes) remaining))
      (sym (no_rest kept rest h)) (extend_whole kept bytes remaining)
Part-split kept rest bytes remaining (inr h) = record {
  rest = rest ++ bytes;
  split =
      ap (λ x. x ++ (rest ++ bytes))
        (take_none (min (length bytes) remaining) kept bytes (omega (arith, h)))
      ∙ sym (append_assoc kept rest bytes);
  whole = inr (omega (arith, h));
}

pub Part-extend :
    (kept all bytes : Bytes) (remaining : ℕ)
    → Part kept all remaining
    → Part
        (kept ++ take (min (length bytes) remaining) bytes)
        (all ++ bytes)
        (remaining - min (length bytes) remaining)
Part-extend kept all bytes remaining p =
    subst
      (λ x.
        Part (kept ++ take (min (length bytes) remaining) bytes) (x ++ bytes)
          (remaining - min (length bytes) remaining))
      p.split (Part-split kept p.rest bytes remaining p.whole)

still_whole :
    (rest remaining k : ℕ) → (rest ≡ 0) ⊎ (remaining ≡ 0) → (rest ≡ 0) ⊎ (remaining - k ≡ 0)
still_whole rest remaining k (inl h) = inl h
still_whole rest remaining k (inr h) = inr (omega (arith, h))

pub Part-less :
    {kept all : Bytes} {remaining : ℕ} (k : ℕ)
    → Part kept all remaining
    → Part kept all (remaining - k)
Part-less {remaining = remaining} k p = record {
  rest = p.rest;
  split = p.split;
  whole = still_whole (length p.rest) remaining k p.whole;
}
