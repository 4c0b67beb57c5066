-- ===== src/Disk/History.antt =====
-- Histories of the disk budgets of native/src/supervisor.rs: grants, each at the exchange that
-- succeeds, and drops, by any threads and in any order.
use micro_sandbox.Prelude.{ℕ, ◌+◌, ◌≤◌, ◌≡◌, ◌∙◌, refl, List, [], ◌∷◌, ◌++◌, arith}
use micro_sandbox.Prelude.Words.{u64_max}
use micro_sandbox.Error.{ok}
use micro_sandbox.Disk.{
  WorkspaceReservation, reserve_workspace, release_workspace, drop_workspace, last_seen,
  reserve_workspace-ok,
}

abbrev pub total : List WorkspaceReservation → ℕ
total [] = 0
total (r ∷ rest) = r.bytes + total rest

total-middle :
    (r : WorkspaceReservation) (xs ys : List WorkspaceReservation)
    → total (xs ++ r ∷ ys) ≡ r.bytes + total (xs ++ ys)
total-middle r [] ys = refl
total-middle r (x ∷ xs) ys = omega (arith, total-middle r xs ys)

-- The counter, with the reservations that are held. A thread that is granted one saw some value of
-- the counter first, and then its value at each exchange that failed.
pub data Step : ℕ × List WorkspaceReservation → ℕ × List WorkspaceReservation → Type 0 where
  grant :
      {counter next : ℕ} (seen available bytes : ℕ) (failures : List ℕ) {r : WorkspaceReservation}
      {held : List WorkspaceReservation}
      → last_seen seen failures ≡ counter
      → reserve_workspace seen available bytes failures ≡ ok (r, next)
      → Step (counter, held) (next, r ∷ held)
  give_back :
      {counter : ℕ} (r : WorkspaceReservation) (xs ys : List WorkspaceReservation)
      → Step (counter, xs ++ r ∷ ys) (drop_workspace r counter, xs ++ ys)

pub data Reach (start : ℕ × List WorkspaceReservation)
    : ℕ × List WorkspaceReservation → Type 0 where
  here : Reach start start
  next : {a b : ℕ × List WorkspaceReservation} → Reach start a → Step a b → Reach start b

abbrev IsSum : ℕ × List WorkspaceReservation → Type 0
IsSum (counter, held) = (counter ≡ total held) × (counter ≤ u64_max)

drop_workspace-IsSum :
    (counter : ℕ) (r : WorkspaceReservation) (xs ys : List WorkspaceReservation)
    → IsSum (counter, xs ++ r ∷ ys)
    → IsSum (drop_workspace r counter, xs ++ ys)
unfolding drop_workspace release_workspace
drop_workspace-IsSum counter r xs ys (sum, small) =
    let split : counter ≡ r.bytes + total (xs ++ ys) = sum ∙ total-middle r xs ys in
    (omega (arith, split, small), omega (arith, split, small))

Step-IsSum : {a b : ℕ × List WorkspaceReservation} → Step a b → IsSum a → IsSum b
Step-IsSum (grant {counter} {next} seen available bytes failures {r} at_last granted) (sum, small) =
    let (kept, added, _, fits) =
      reserve_workspace-ok seen available bytes failures r next granted in
    (omega (arith, kept, added, at_last, sum), fits)
Step-IsSum (give_back {counter} r xs ys) v = drop_workspace-IsSum counter r xs ys v

Reach-IsSum : {a b : ℕ × List WorkspaceReservation} → Reach a b → IsSum a → IsSum b
Reach-IsSum here v = v
Reach-IsSum (next r st) v = Step-IsSum st (Reach-IsSum r v)

-- After any history of grants and drops from a counter of zero, with any failed exchanges in
-- between, the counter is the sum of the bytes of the reservations still held, and fits in 64 bits:
-- a drop takes back what its own reservation was granted and nothing else.
pub Reach-total :
    (counter : ℕ) (held : List WorkspaceReservation)
    → Reach (0, []) (counter, held)
    → (counter ≡ total held) × (counter ≤ u64_max)
Reach-total counter held r = Reach-IsSum r (refl, omega arith)
