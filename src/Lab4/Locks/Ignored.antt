-- ===== src/Lab4/Locks/Ignored.antt =====
-- The modules of Lab4/4.1.1 do not exclude each other.
use petulant_wookie.Base.{◌≡◌, refl, true, false, pos, arith}
use petulant_wookie.Lab4.Locks.{
  LockKernel, IsLock, mutex2_init, mutex2_exit, mutex3_init, second, third, mutexes, System,
  is_loaded, set_loaded, loads, unloads, Reach, here, later, none_loaded,
}

module _ {L : Type 0} (k : LockKernel L) (lock : IsLock k) where
  mutex2_killed : (l : L) → mutex2_init k true l ≡ (pos 0, l)
  unfolding mutex2_init
  mutex2_killed l = rw (lock.killed l)

  mutex3_taken :
      (l l' : L) → k.lock_interruptible false l ≡ (false, l') → mutex3_init k false l ≡ (pos 0, l')
  unfolding mutex3_init
  mutex3_taken l l' e = rw e

  -- From a free mutex, the loads and unloads of lab1_mutex2 and lab1_mutex3 reach a state in which
  -- both are loaded, and from it one in which lab1_mutex3 is still loaded and the mutex is free.
  pub mutex2_ignores :
      (l : L)
      → k.units l ≡ 1
      → (s t : System L) × Reach k (mutexes k) (none_loaded l) s
        × (s.second_loaded ≡ true)
        × (s.third_loaded ≡ true)
        × Reach k (mutexes k) s t
        × (t.third_loaded ≡ true)
        × (k.units t.lock ≡ 1)
  unfolding is_loaded set_loaded mutex2_exit
  mutex2_ignores l one =
      let (l', e, u) = lock.taken l (omega (arith, one)) in
      let alone : Reach k (mutexes k) (none_loaded l) (set_loaded third true l' (none_loaded l)) =
        later here (loads third false l' refl (λ z. omega (arith, one)) (mutex3_taken l l' e)) in
      let s : System L = record { lock = l'; second_loaded = true; third_loaded = true } in
      (
        s,
        _,
        later alone (loads second true l' refl (λ z. cc) (mutex2_killed l')),
        refl,
        refl,
        later here (unloads second refl),
        refl,
        lock.given l' (omega (arith, one, u)),
      )
