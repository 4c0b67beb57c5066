-- ===== src/Cgroup/Removal.antt =====
-- The removal of a cgroup's directory: `remove_dir` and `cleanup` of native/src/linux/cgroup.rs.
use micro_sandbox.Prelude.{
  ℕ, zero, suc, ◌+◌, ◌*◌, ◌≤◌, ◌≡◌, refl, Bool, true, false, not, inl, inr, arith, Bool-cases,
  if◌then◌else◌,
}
use micro_sandbox.Error.{IoError, Result, ok, err}
use micro_sandbox.Host.{FilePath, IoResult}
use micro_sandbox.Cgroup.{
  Cgroup, CgroupFs, Ran, remove_timeout, retry_pause, max_pauses, is_not_found, is_kernel, removed,
  Cleaned, and_next, mark_cleaned, after_kill, empty_emulated, kill_all, retries, remove_until,
  remove_dir, cleanup,
}

module _ {S : Type 0} (fs : CgroupFs S) where
  removed-cong :
      (r : IoResult (Unit {0}) × S) (f g : IoError → S → Ran fs (Unit {0}))
      → ((e : IoError) → f e r.1 ≡ g e r.1)
      → removed fs r f ≡ removed fs r g
  removed-cong (inr _, s) f g h = refl
  removed-cong (inl e, s) f g h = elim (Bool-cases (is_not_found e.kind)) [
    | inl p ↦ rw p refl
    | inr p ↦ rw p (h e)
  ]

  retries_late :
      (retry_busy : Bool) (deadline : ℕ) (e : IoError) (s : S)
      → deadline ≤ fs.now s
      → retries fs retry_busy deadline e s ≡ false
  retries_late retry_busy deadline e s h = ground arith

module _ {S : Type 0} (fs : CgroupFs S)
    (remove_dir-now : (path : FilePath) (s : S) → fs.now s ≤ fs.now ((fs.remove_dir path s).1))
    (sleep-now : (d : ℕ) (s : S) → fs.now s + d ≤ fs.now (fs.sleep d s)) where
  spent :
      (more : ℕ) (path : FilePath) (retry_busy : Bool) (deadline : ℕ) (s : S)
      → deadline ≤ fs.now s
      → remove_until fs more path retry_busy deadline s
        ≡ remove_until fs zero path retry_busy deadline s
  unfolding remove_until
  spent zero path retry_busy deadline s h = refl
  spent (suc more) path retry_busy deadline s h = removed-cong fs (fs.remove_dir path s) _ _ λ e.
      rw
        (retries_late fs retry_busy deadline e ((fs.remove_dir path s).1)
          (omega (arith, remove_dir-now path s)))
        refl

  enough :
      (pauses tries : ℕ) (path : FilePath) (retry_busy : Bool) (deadline : ℕ) (s : S)
      → pauses ≤ tries
      → deadline ≤ fs.now s + pauses * retry_pause
      → remove_until fs tries path retry_busy deadline s
        ≡ remove_until fs pauses path retry_busy deadline s
  unfolding remove_until
  enough zero tries path retry_busy deadline s le h =
      spent tries path retry_busy deadline s (omega arith)
  enough (suc pauses) zero path retry_busy deadline s le h = absurd (omega arith)
  enough (suc pauses) (suc tries) path retry_busy deadline s le h =
      removed-cong fs (fs.remove_dir path s) _ _ λ e.
        let s' = (fs.remove_dir path s).1 in
        rw
          (enough pauses tries path retry_busy deadline (fs.sleep retry_pause s') (omega arith)
            (omega (arith, remove_dir-now path s, sleep-now retry_pause s')))
          refl

  -- Where the clock does not go back and a pause lasts as long as was asked, the loop of
  -- `remove_dir` ends by its deadline: it takes 100 pauses of 10 ms at most, and allowing more
  -- changes nothing.
  pub remove_dir_ends :
      (tries : ℕ) (path : FilePath) (retry_busy : Bool) (s : S)
      → max_pauses fs ≤ tries
      → remove_until fs tries path retry_busy (fs.now s + remove_timeout) s
        ≡ remove_dir fs path retry_busy s
  unfolding remove_dir
  remove_dir_ends tries path retry_busy s le =
      enough (max_pauses fs) tries path retry_busy (fs.now s + remove_timeout) s le (omega arith)

module _ {S : Type 0} (fs : CgroupFs S)
    (remove_dir-gone : (path : FilePath) (s : S)
      → (fs.remove_dir path s).0 ≡ inr tt
      → (fs.host ((fs.remove_dir path s).1)).exists path ≡ false)
    (not_found-gone : (path : FilePath) (s : S) (e : IoError)
      → (fs.remove_dir path s).0 ≡ inl e
      → is_not_found e.kind ≡ true
      → (fs.host ((fs.remove_dir path s).1)).exists path ≡ false) where
  abbrev Gone : FilePath → Ran fs (Unit {0}) → Type 0
  Gone path r = r.0 ≡ ok tt → (fs.host r.1).exists path ≡ false

  removed-Gone :
      (path : FilePath) (r : IoResult (Unit {0}) × S) (busy : IoError → S → Ran fs (Unit {0}))
      → (r.0 ≡ inr tt → (fs.host r.1).exists path ≡ false)
      → ((e : IoError)
          → r.0 ≡ inl e
          → is_not_found e.kind ≡ true
          → (fs.host r.1).exists path ≡ false)
      → ((e : IoError) → Gone path (busy e r.1))
      → Gone path (removed fs r busy)
  removed-Gone path (inr _, s) busy gone missing more = λ h. gone refl
  removed-Gone path (inl e, s) busy gone missing more = elim (Bool-cases (is_not_found e.kind)) [
    | inl p ↦ rw p λ _. missing e refl p
    | inr p ↦ rw p (more e)
  ]

  remove_until-Gone :
      (tries : ℕ) (path : FilePath) (retry_busy : Bool) (deadline : ℕ) (s : S)
      → Gone path (remove_until fs tries path retry_busy deadline s)
  unfolding remove_until
  remove_until-Gone zero path retry_busy deadline s =
      removed-Gone path (fs.remove_dir path s) _ (remove_dir-gone path s) (not_found-gone path s)
        λ e h. absurd (cc h)
  remove_until-Gone (suc tries) path retry_busy deadline s =
      removed-Gone path (fs.remove_dir path s) _ (remove_dir-gone path s) (not_found-gone path s)
        λ e. elim (Bool-cases (retries fs retry_busy deadline e ((fs.remove_dir path s).1))) [
          | inl p ↦ rw p (remove_until-Gone tries path retry_busy deadline _)
          | inr p ↦ rw p λ h. absurd (cc h)
        ]

  pub remove_dir-Gone :
      (path : FilePath) (retry_busy : Bool) (s : S) → Gone path (remove_dir fs path retry_busy s)
  unfolding remove_dir
  remove_dir-Gone path retry_busy s =
      remove_until-Gone (max_pauses fs) path retry_busy (fs.now s + remove_timeout) s

  and_next-Gone :
      (path : FilePath) (r : Ran fs (Unit {0})) (next : Unit {0} → S → Ran fs (Unit {0}))
      → ((s : S) → Gone path (next tt s))
      → Gone path (and_next fs r next)
  and_next-Gone path (err e, s) next g = λ h. absurd (cc h)
  and_next-Gone path (ok _, s) next g = g s

  abbrev IsRemoved : FilePath → Cleaned fs → Type 0
  IsRemoved path out =
      out.0 ≡ ok tt → ((fs.host out.1.1).exists path ≡ false) × (out.1.0.cleaned ≡ true)

  mark_cleaned-IsRemoved :
      (c : Cgroup) (kill_result : Result (Unit {0})) (r : Ran fs (Unit {0}))
      → Gone c.path r
      → IsRemoved c.path (mark_cleaned fs c kill_result r)
  mark_cleaned-IsRemoved c kill_result (err e, s) g = λ h. absurd (cc h)
  mark_cleaned-IsRemoved c kill_result (ok _, s) g = λ h. (g refl, refl)

  after_kill-IsRemoved : (c : Cgroup) (r : Ran fs (Unit {0})) → IsRemoved c.path (after_kill fs c r)
  unfolding after_kill
  after_kill-IsRemoved c (kill_result, s) =
      mark_cleaned-IsRemoved c kill_result _
        (and_next-Gone c.path (empty_emulated fs c s) _ (remove_dir-Gone c.path (is_kernel c.mode)))

  branches-IsRemoved :
      (path : FilePath) (cleaned there : Bool) (done missing present : Cleaned fs)
      → cleaned ≡ false
      → (there ≡ false → IsRemoved path missing)
      → IsRemoved path present
      → IsRemoved path (if cleaned then done else if not there then missing else present)
  branches-IsRemoved path true there done missing present fresh gone here = absurd (cc fresh)
  branches-IsRemoved path false true done missing present fresh gone here = here
  branches-IsRemoved path false false done missing present fresh gone here = gone refl

  -- Where a `remove_dir` that succeeds, or that finds nothing, leaves no directory, a `cleanup` that
  -- succeeds on a cgroup that is not marked as cleaned leaves none, and marks it.
  pub cleanup_gone :
      (c : Cgroup) (s : S)
      → c.cleaned ≡ false
      → (cleanup fs c s).0 ≡ ok tt
      → ((fs.host ((cleanup fs c s).1.1)).exists c.path ≡ false)
        × ((cleanup fs c s).1.0.cleaned ≡ true)
  unfolding cleanup
  cleanup_gone c s fresh =
      branches-IsRemoved c.path c.cleaned ((fs.host s).exists c.path) _ _ _ fresh
        (λ missing _. (missing, refl)) (after_kill-IsRemoved c (kill_all fs c s))
