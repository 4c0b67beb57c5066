-- ===== src/Linux/Clone/Ready.antt =====
-- When `wait_until_ready` of native/src/linux/clone.rs returns, and with what.
use mathlib.Core.Path.{subst}
use micro_sandbox.Prelude.{
  ℕ, ◌≡◌, refl, sym, Bool, true, false, ◌&&◌, none, some, List, [], ◌∷◌, ◌++◌, all, ltb, leb,
  Bool-cases, inl, inr, ◌⊎◌, ◌↔◌, ap, arith,
}
use micro_sandbox.Error.{io, SandboxError, ok, err}
use micro_sandbox.Linux.{PollRound, Polled, poll_failed, poll_nothing, poll_ready, is_interrupted}
use micro_sandbox.Linux.Clone.{setup_timed_out, setup_failed, poll_round, poll_rounds}

-- A round that only waits on: nothing was found, or a signal came in between.
abbrev pub waits : Polled → Bool
waits poll_nothing = true
waits (poll_failed e) = is_interrupted e.kind
waits (poll_ready _) = false

abbrev pub passes_by : ℕ → PollRound → Bool
passes_by deadline round = ltb round.now deadline && waits round.polled

-- The child is ready where the rounds before are in time and wait on, and one comes, in time, in
-- which the descriptor can be read and holds the byte one.
abbrev pub Armed : ℕ → Bool → List PollRound → Type 0
Armed deadline byte_is_one rounds =
    (before : List PollRound) × (round : PollRound) × (after : List PollRound) × (rounds
      ≡ before ++ round ∷ after)
    × (all (passes_by deadline) before ≡ true)
    × (ltb round.now deadline ≡ true)
    × (round.polled ≡ poll_ready true)
    × (byte_is_one ≡ true)

-- What a round decides, case by case.
abbrev Decided : ℕ → Bool → PollRound → Type 0
Decided deadline one round =
    ((poll_round deadline one round ≡ none) × (passes_by deadline round ≡ true))
    ⊎ (((poll_round deadline one round ≡ some (ok tt))
          × (ltb round.now deadline ≡ true)
          × (round.polled ≡ poll_ready true)
          × (one ≡ true))
        ⊎ ((e : SandboxError) × (poll_round deadline one round ≡ some (err e))))

Decided-in_time :
    (deadline : ℕ) (one : Bool) (now : ℕ) (polled : Polled)
    → leb deadline now ≡ false
    → ltb now deadline ≡ true
    → Decided deadline one (record { now = now; polled = polled })
unfolding poll_round
Decided-in_time deadline one now poll_nothing h k = inl (rw h refl, rw k refl)
Decided-in_time deadline one now (poll_failed e) h k = elim (Bool-cases (is_interrupted e.kind)) [
  | inl p ↦ inl (rw (h, p) refl, rw (k, p) refl)
  | inr p ↦ inr (inr (io e, rw (h, p) refl))
]
Decided-in_time deadline true now (poll_ready true) h k = inr (inl (rw h refl, k, refl, refl))
Decided-in_time deadline false now (poll_ready true) h k = inr (inr (setup_failed, rw h refl))
Decided-in_time deadline one now (poll_ready false) h k = inr (inr (setup_failed, rw h refl))

decided : (deadline : ℕ) (one : Bool) (round : PollRound) → Decided deadline one round
unfolding poll_round
decided deadline one round = elim (Bool-cases (leb deadline round.now)) [
  | inl p ↦ inr (inr (setup_timed_out, rw p refl))
  | inr p ↦ Decided-in_time deadline one round.now round.polled p (ground arith)
]

armed :
    (deadline : ℕ) (one : Bool) (rounds : List PollRound)
    → poll_rounds deadline one rounds ≡ ok tt
    → Armed deadline one rounds
unfolding poll_rounds
armed deadline one [] h = absurd (cc h)
armed deadline one (round ∷ rest) h = elim (decided deadline one round) [
  | inl (p, passes) ↦
      let (before, last, after, split, all_pass, time, found, byte) =
        armed deadline one rest (rw (poll_rounds, p) at h) in
      (
        round ∷ before,
        last,
        after,
        ap (λ l. round ∷ l) split,
        rw (passes, all_pass) refl,
        time,
        found,
        byte,
      )
  | inr (inl (p, time, found, byte)) ↦ ([], round, rest, refl, refl, time, found, byte)
  | inr (inr (e, p)) ↦ absurd (cc (rw (poll_rounds, p) at h))
]

goes_on_at :
    (deadline : ℕ) (one : Bool) (now : ℕ) (polled : Polled)
    → leb deadline now ≡ false
    → waits polled ≡ true
    → poll_round deadline one (record { now = now; polled = polled }) ≡ none
unfolding poll_round
goes_on_at deadline one now poll_nothing h w = rw h refl
goes_on_at deadline one now (poll_failed e) h w = rw (h, w) refl
goes_on_at deadline one now (poll_ready _) h w = absurd (cc w)

goes_on :
    (deadline : ℕ) (one : Bool) (round : PollRound)
    → passes_by deadline round ≡ true
    → poll_round deadline one round ≡ none
goes_on deadline one round h =
    goes_on_at deadline one round.now round.polled (ground (arith, h)) (ground (arith, h))

in_time :
    (deadline : ℕ) (one : Bool) (now : ℕ) (polled : Polled)
    → ltb now deadline ≡ true
    → polled ≡ poll_ready true
    → one ≡ true
    → poll_round deadline one (record { now = now; polled = polled }) ≡ some (ok tt)
unfolding poll_round
in_time deadline one now polled time found byte =
    let late : leb deadline now ≡ false = ground arith in rw (late, found, byte) refl

ready_at :
    (deadline : ℕ) (one : Bool) (before : List PollRound) (round : PollRound)
    (after : List PollRound)
    → all (passes_by deadline) before ≡ true
    → ltb round.now deadline ≡ true
    → round.polled ≡ poll_ready true
    → one ≡ true
    → poll_rounds deadline one (before ++ round ∷ after) ≡ ok tt
unfolding poll_rounds
ready_at deadline one [] round after pass time found byte =
    rw (poll_rounds, in_time deadline one round.now round.polled time found byte) refl
ready_at deadline one (first ∷ before) round after pass time found byte =
    rw
      (
        poll_rounds,
        goes_on deadline one first (ground (arith, pass)),
        ready_at deadline one before round after (ground (arith, pass)) time found byte,
      )
      refl

-- `wait_until_ready` reports a ready child exactly where the rounds of `poll` go like this: some
-- first ones come before the deadline and find nothing or are interrupted, and the next one comes
-- before the deadline too, finds that the descriptor can be read, and the byte read is one. In
-- every other run it reports an error, at the latest when the clock has passed the deadline.
pub poll_rounds-Armed :
    (deadline : ℕ) (one : Bool) (rounds : List PollRound)
    → (poll_rounds deadline one rounds ≡ ok tt) ↔ Armed deadline one rounds
poll_rounds-Armed deadline one rounds = (
  armed deadline one rounds,
  λ (before, round, after, split, pass, time, found, byte).
      (subst (λ l. poll_rounds deadline one l ≡ ok tt) (sym split)
        (ready_at deadline one before round after pass time found byte)),
)
