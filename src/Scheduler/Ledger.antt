-- ===== src/Scheduler/Ledger.antt =====
-- The reservations that are held, beside the scheduler: native/src/scheduler.rs over any history of
-- grants and drops.
use micro_sandbox.Prelude.{◌≡◌, refl, ◌∙◌, false, List, [], ◌∷◌, ◌++◌, All, arith}
use micro_sandbox.Error.{ok}
use micro_sandbox.Scheduler.{
  Capacity, Scheduler, Reservation, no_capacity, new, reserve_with_limit, drop_reservation,
}
use micro_sandbox.Scheduler.Admission.{◌≤ᶜ◌, plus, reserve_with_limit-ok}

-- The requests of some reservations, added up.
abbrev pub total : List Reservation → Capacity
total [] = no_capacity
total (r ∷ rs) = plus r.request (total rs)

-- The scheduler's account is the sum of the reservations that are held, none of which has been
-- released, and it stays within the limit.
pub record Holds (s : Scheduler) (held : List Reservation) : Type 0 where
  pub account : s.reserved ≡ total held
  pub live : All (λ r. r.released ≡ false) held
  pub within : ◌≤ᶜ◌ s.reserved s.limit

pub new-Holds : (limit : Capacity) → Holds (new limit) []
unfolding new
new-Holds limit = record { account = refl; live = tt; within = omega arith }

pub grant-Holds :
    {s s' : Scheduler} (q h u : Capacity) {r : Reservation} {held : List Reservation}
    → Holds s held
    → reserve_with_limit s q h u ≡ ok (r, s')
    → Holds s' (r ∷ held)
grant-Holds {s} {s'} q h u {r} v e =
    let (g, er, es) = reserve_with_limit-ok s q h u r s' e in
    record { account = ground (arith, v.account); live = (cc, v.live); within = ground (arith, g) }

-- The reservation may stand anywhere among the held ones.
pub drop-Holds :
    {s : Scheduler} (r : Reservation) {held rest : List Reservation}
    → Holds s held
    → total held ≡ plus r.request (total rest)
    → r.released ≡ false
    → All (λ x. x.released ≡ false) rest
    → Holds (drop_reservation r s) rest
unfolding drop_reservation
drop-Holds r v split live others = record {
  account = ground (arith, v.account);
  live = others;
  within = ground (arith, v.within);
}

total-middle :
    (r : Reservation) (xs ys : List Reservation)
    → total (xs ++ r ∷ ys) ≡ plus r.request (total (xs ++ ys))
total-middle r [] ys = refl
total-middle r (x ∷ xs) ys = ground (arith, total-middle r xs ys)

live-middle :
    (r : Reservation) (xs ys : List Reservation)
    → All (λ x. x.released ≡ false) (xs ++ r ∷ ys)
    → (r.released ≡ false) × All (λ x. x.released ≡ false) (xs ++ ys)
live-middle r [] ys h = h
live-middle r (x ∷ xs) ys (hx, hs) = let (a, b) = live-middle r xs ys hs in (a, (hx, b))

-- One grant, or one drop of any reservation that is held: the order of both is free.
pub data Step : Scheduler × List Reservation → Scheduler × List Reservation → Type 0 where
  grant :
      {s s' : Scheduler} (q h u : Capacity) {r : Reservation} {held : List Reservation}
      → reserve_with_limit s q h u ≡ ok (r, s')
      → Step (s, held) (s', r ∷ held)
  give_back :
      {s : Scheduler} (r : Reservation) (xs ys : List Reservation)
      → Step (s, xs ++ r ∷ ys) (drop_reservation r s, xs ++ ys)

pub data Reach (start : Scheduler × List Reservation) : Scheduler × List Reservation → Type 0 where
  here : Reach start start
  next : {a b : Scheduler × List Reservation} → Reach start a → Step a b → Reach start b

Step-Holds : {a b : Scheduler × List Reservation} → Step a b → Holds a.0 a.1 → Holds b.0 b.1
Step-Holds (grant q h u e) v = grant-Holds q h u v e
Step-Holds (give_back r xs ys) v =
    let (live, others) = live-middle r xs ys v.live in
    drop-Holds r v (total-middle r xs ys) live others

limit-Step : {a b : Scheduler × List Reservation} → Step a b → b.0.limit ≡ a.0.limit
unfolding drop_reservation
limit-Step (grant {s} {s'} q h u {r} e) =
    let (g, er, es) = reserve_with_limit-ok s q h u r s' e in ground arith
limit-Step (give_back r xs ys) = ground arith

Reach-Holds :
    {start a : Scheduler × List Reservation}
    → Reach start a
    → Holds start.0 start.1
    → Holds a.0 a.1 × (a.0.limit ≡ start.0.limit)
Reach-Holds here v = (v, refl)
Reach-Holds (next r st) v = let (w, e) = Reach-Holds r v in (Step-Holds st w, limit-Step st ∙ e)

-- After any history of grants and drops from a fresh scheduler, in any order, the reserved total is
-- the sum of the reservations still held and is within the limit given at the start, in all three
-- resources.
pub history-Holds :
    (limit : Capacity) (s : Scheduler) (held : List Reservation)
    → Reach (new limit, []) (s, held)
    → (s.reserved ≡ total held) × ◌≤ᶜ◌ (total held) limit
unfolding new
history-Holds limit s held r =
    let (v, e) = Reach-Holds r (new-Holds limit) in (v.account, ground (arith, v.account, v.within))
