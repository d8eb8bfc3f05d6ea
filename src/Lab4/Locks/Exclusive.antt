-- ===== src/Lab4/Locks/Exclusive.antt =====
-- The modules of Lab4/4.1.2 exclude each other.
use petulant_wookie.Base.{
  ℕ, ◌+◌, ◌<◌, ◌≡◌, refl, ◌∙◌, ap, sym, true, false, if◌then◌else◌, pos, negsuc, arith,
}
use petulant_wookie.Lab4.Locks.{
  LockKernel, IsLock, semaphore2_init, semaphore2_exit, semaphore3_init, semaphore3_exit, Number,
  second, third, semaphores, System, is_loaded, set_loaded, Step, loads, refused, unloads, Reach,
  here, later, none_loaded,
}

-- How many of the two are loaded.
pub loaded_count : {L : Type 0} → System L → ℕ
loaded_count s = (if s.second_loaded then 1 else 0) + (if s.third_loaded then 1 else 0)

count_load :
    {L : Type 0} (n : Number) (l : L) (s : System L)
    → is_loaded n s ≡ false
    → (loaded_count (set_loaded n true l s) ≡ loaded_count s + 1)
      × ((set_loaded n true l s).lock ≡ l)
unfolding loaded_count set_loaded is_loaded
count_load second l s e = (ground arith, refl)
count_load third l s e = (ground arith, refl)

count_unload :
    {L : Type 0} (n : Number) (l : L) (s : System L)
    → is_loaded n s ≡ true
    → (loaded_count (set_loaded n false l s) + 1 ≡ loaded_count s)
      × ((set_loaded n false l s).lock ≡ l)
unfolding loaded_count set_loaded is_loaded
count_unload second l s e = (ground arith, refl)
count_unload third l s e = (ground arith, refl)

module _ {L : Type 0} (k : LockKernel L) (lock : IsLock k) where
  Exclusive : System L → Type 0
  Exclusive s = k.units s.lock + loaded_count s ≡ 1

  -- What the init of either module does.
  init_killed : (n : Number) (l : L) → (semaphores k).init n true l ≡ (negsuc 511, l)
  unfolding semaphore2_init semaphore3_init
  init_killed second l = rw (lock.killed l)
  init_killed third l = rw (lock.killed l)

  init_taken :
      (n : Number) (l : L)
      → 0 < k.units l
      → (l' : L) × ((semaphores k).init n false l ≡ (pos 0, l')) × (k.units l' + 1 ≡ k.units l)
  unfolding semaphore2_init semaphore3_init
  init_taken second l h = let (l', e, u) = lock.taken l h in (l', rw e, u)
  init_taken third l h = let (l', e, u) = lock.taken l h in (l', rw e, u)

  exit_given : (n : Number) (l : L) → k.units l ≡ 0 → k.units ((semaphores k).exit n l) ≡ 1
  unfolding semaphore2_exit semaphore3_exit
  exit_given second l h = lock.given l h
  exit_given third l h = lock.given l h

  Step-Exclusive : {s t : System L} → Step k (semaphores k) s t → Exclusive s → Exclusive t
  unfolding Exclusive loaded_count
  Step-Exclusive {s} (loads n true l free room e) i = let bad = sym (init_killed n s.lock) ∙ e in cc
  Step-Exclusive {s} (loads n false l free room e) i =
      let (l', e', u) = init_taken n s.lock (room refl) in
      let same : l' ≡ l = ap (λ r. r.1) (sym e' ∙ e) in
      let (c, at) = count_load n l s free in
      let units : k.units (set_loaded n true l s).lock + 1 ≡ k.units s.lock =
        ap (λ x. k.units x + 1) (at ∙ sym same) ∙ u in
      omega (arith, units, c, i)
  Step-Exclusive {s} (refused n true e l free room r) i =
      let same : s.lock ≡ l = ap (λ x. x.1) (sym (init_killed n s.lock) ∙ r) in
      ap (λ x. k.units x + loaded_count s) (sym same) ∙ i
  Step-Exclusive {s} (refused n false e l free room r) i =
      let (l', e', u) = init_taken n s.lock (room refl) in let bad = sym e' ∙ r in cc
  Step-Exclusive {s} (unloads n there) i =
      let l = (semaphores k).exit n s.lock in
      let (c, at) = count_unload n l s there in
      let units : k.units (set_loaded n false l s).lock ≡ 1 =
        ap k.units at ∙ exit_given n s.lock (omega (arith, c, i)) in
      omega (arith, units, c, i)

  keep :
      (l : L)
      → k.units l ≡ 1
      → {s : System L} → Reach k (semaphores k) (none_loaded l) s
      → Exclusive s
  unfolding Exclusive loaded_count
  keep l one here = omega (arith, one)
  keep l one (later q st) = Step-Exclusive st (keep l one q)

  both : (s : System L) → Exclusive s → ¬ ((s.second_loaded ≡ true) × (s.third_loaded ≡ true))
  unfolding Exclusive loaded_count
  both s i (e, e') = ground arith

  -- However semaphore2 and semaphore3 are loaded and unloaded, and whichever loads a signal ends,
  -- starting from a free semaphore with a count of one: the count and the number of the two modules
  -- that are loaded make one, and the two are never loaded together.
  pub Reach-Exclusive :
      {s : System L} (l : L)
      → k.units l ≡ 1
      → Reach k (semaphores k) (none_loaded l) s
      → (k.units s.lock + loaded_count s ≡ 1)
        × (¬ ((s.second_loaded ≡ true) × (s.third_loaded ≡ true)))
  unfolding Exclusive
  Reach-Exclusive {s} l one r = let i = keep l one r in (i, both s i)
