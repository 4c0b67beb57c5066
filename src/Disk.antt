-- ===== src/Disk.antt =====
-- `WorkspaceReservation` of native/src/supervisor.rs: disk budgets on one atomic counter.
-- Each failed `compare_exchange_weak` hands back the counter as it is then: the list of those values
-- is what other threads, or spurious failures, make of the loop.
pub mod History
use micro_sandbox.Prelude.{
  ℕ, ◌+◌, ◌-◌, ◌*◌, ◌/◌, ◌%◌, ◌^◌, ◌≤◌, ◌≡◌, Option, none, some, List, [], ◌∷◌, ltb, if◌then◌else◌,
  arith, ap, sym,
}
use micro_sandbox.Prelude.Words.{u64_max, checked_add_u64, saturating_mul_u64}
use micro_sandbox.Error.{Result, ok, err, capacity_exceeded, ◌>>=◌, >>=-eq-ok, ok_injective}

-- `available.saturating_mul(80) / 100`.
abbrev pub usable_bytes : ℕ → ℕ
usable_bytes available = saturating_mul_u64 available 80 / 100

abbrev bounded : ℕ → Option ℕ → Result ℕ
bounded usable none = err capacity_exceeded
bounded usable (some next) = if ltb usable next then err capacity_exceeded else ok next

abbrev retry : Result ℕ → Result ℕ → Result ℕ
retry (err e) rest = err e
retry (ok next) rest = rest

-- The loop: the counter's new value, or the refusal.
unfoldable pub reserve_loop : ℕ → ℕ → ℕ → List ℕ → Result ℕ
reserve_loop usable bytes current [] = bounded usable (checked_add_u64 current bytes)
reserve_loop usable bytes current (actual ∷ later) =
    let rest = reserve_loop usable bytes actual later in
    retry (bounded usable (checked_add_u64 current bytes)) rest

-- The bytes are kept for the drop; the counter is shared.
pub record WorkspaceReservation : Type 0 where
  pub bytes : ℕ

-- The reservation, and the counter's new value.
unfoldable pub reserve_workspace : ℕ → ℕ → ℕ → List ℕ → Result (WorkspaceReservation × ℕ)
unfolding reserve_loop
reserve_workspace reserved available bytes failures =
    reserve_loop (usable_bytes available) bytes reserved failures >>= λ next.
    ok (record { bytes = bytes }, next)

-- `fetch_sub` on drop, which wraps.
unfoldable pub release_workspace : ℕ → ℕ → ℕ
release_workspace reserved bytes = (reserved + 2 ^ 64 - bytes) % 2 ^ 64

-- `drop`.
unfoldable pub drop_workspace : WorkspaceReservation → ℕ → ℕ
unfolding release_workspace
drop_workspace r reserved = release_workspace reserved r.bytes

-- The value of the counter at the exchange that succeeds.
abbrev pub last_seen : ℕ → List ℕ → ℕ
last_seen current [] = current
last_seen current (actual ∷ later) = last_seen actual later

reserve_loop-ok :
    (usable bytes current : ℕ) (failures : List ℕ) (next : ℕ)
    → reserve_loop usable bytes current failures ≡ ok next
    → (next ≡ last_seen current failures + bytes) × (next ≤ usable) × (next ≤ u64_max)
unfolding reserve_loop
reserve_loop-ok u b c [] next h = ground arith
reserve_loop-ok u b c (a ∷ later) next h = ground (arith, reserve_loop-ok u b a later next)

-- Whatever other threads do to the counter meanwhile, a budget that is granted is kept in the
-- reservation and added to the value that the counter has at that moment, and the sum is at most
-- four fifths of the free space and fits in 64 bits.
pub reserve_workspace-ok :
    (reserved available bytes : ℕ) (failures : List ℕ) (r : WorkspaceReservation) (next : ℕ)
    → reserve_workspace reserved available bytes failures ≡ ok (r, next)
    → (r.bytes ≡ bytes)
      × (next ≡ last_seen reserved failures + bytes)
      × (next * 100 ≤ available * 80)
      × (next ≤ u64_max)
unfolding reserve_workspace
reserve_workspace-ok reserved available bytes failures r next h =
    let (sum, granted, h1) =
      >>=-eq-ok (reserve_loop (usable_bytes available) bytes reserved failures) _ h in
    let both = ok_injective h1 in
    let same : sum ≡ next = ap (λ x. x.1) both in
    let (e, le, small) =
      reserve_loop-ok (usable_bytes available) bytes reserved failures sum granted in
    (
      sym (ap (λ x. x.0.bytes) both),
      omega (arith, e, same),
      omega (arith, le, same),
      omega (arith, small, same),
    )
