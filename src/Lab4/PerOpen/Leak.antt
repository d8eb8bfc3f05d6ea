-- ===== src/Lab4/PerOpen/Leak.antt =====
-- Lab4/4.1.2.2/seek.c: the block of an open file when the device is opened again.
use petulant_wookie.Base.{
  ℕ, zero, suc, ◌<◌, ◌≡◌, ◌≢◌, refl, ◌∙◌, ap, sym, ◌⊎◌, inl, inr, List, [], ◌∷◌, ◌++◌, Option, none,
  some, length, get_elem?, set, ℤ, arith,
}
use petulant_wookie.Kernel.{Kernel, Run, done, running, overrun}
use petulant_wookie.Lab3.Seek.{Ramdisk, Transfer}
use petulant_wookie.Lab3.Seek
use petulant_wookie.Lab4.PerOpen.{
  State, Fate, fine, use_after_free, out_of_bounds, allocate, free, free_block, Target, target,
  cells, freed, wild, store, stored, mycdrv_open, mycdrv_release, mycdrv_write, my_exit,
}

get_elem?-set_ne :
    {A : Type 0} (xs : List A) (i j : ℕ) (v : A) → i ≢ j → get_elem? (set xs i v) j ≡ get_elem? xs j
get_elem?-set_ne [] i j v h = refl
get_elem?-set_ne (x ∷ xs) zero zero v h = absurd (h refl)
get_elem?-set_ne (x ∷ xs) zero (suc j) v h = refl
get_elem?-set_ne (x ∷ xs) (suc i) zero v h = refl
get_elem?-set_ne (x ∷ xs) (suc i) (suc j) v h = get_elem?-set_ne xs i j v (λ e. h (ap suc e))

get_elem?-append :
    {A : Type 0} (xs ys : List A) (i : ℕ) (v : A)
    → get_elem? xs i ≡ some v
    → get_elem? (xs ++ ys) i ≡ some v
get_elem?-append [] ys i v e = cc
get_elem?-append (x ∷ xs) ys zero v e = e
get_elem?-append (x ∷ xs) ys (suc i) v e = get_elem?-append xs ys i v e

get_elem?-lt : {A : Type 0} (xs : List A) (i : ℕ) (v : A) → get_elem? xs i ≡ some v → i < length xs
get_elem?-lt [] i v e = cc
get_elem?-lt (x ∷ xs) zero v e = omega arith
get_elem?-lt (x ∷ xs) (suc i) v e = omega (arith, get_elem?-lt xs i v e)

-- One call on the device, of any open file, or the unloading of the module.
pub data Step (s : State) : State → Type 0 where
  opens : (block : Option Ramdisk) → Step s (mycdrv_open block s)
  writes :
      {t : State} (k : Kernel) (buf : List ℕ) (lbuf : ℕ) (f_pos : ℤ) (x : Transfer)
      → mycdrv_write k s buf lbuf f_pos ≡ fine (x, t)
      → Step s t
  releases : {t : State} → mycdrv_release s ≡ fine t → Step s t
  unloads : {t : State} → my_exit s ≡ fine t → Step s t

pub data Reach (s : State) : State → Type 0 where
  here : Reach s s
  later : {t u : State} → Reach s t → Step t u → Reach s u

-- The block holds these bytes, and the pointer is elsewhere.
pub record Stray (a : ℕ) (bytes : Ramdisk) (s : State) : Type 0 where
  pub live : get_elem? s.heap a ≡ some (some bytes)
  pub elsewhere : s.ramdisk ≢ some a

opened :
    (s : State) (a : ℕ) (bytes : Ramdisk) (block : Option Ramdisk)
    → get_elem? s.heap a ≡ some (some bytes)
    → Stray a bytes (mycdrv_open block s)
unfolding mycdrv_open allocate
opened s a bytes none f = record { live = f; elsewhere = λ e. cc }
opened s a bytes (some block) f = record {
  live = get_elem?-append s.heap (some block ∷ []) a (some bytes) f;
  elsewhere = λ e.
      let at_end : length s.heap ≡ a = cc in
      absurd (omega (arith, get_elem?-lt s.heap a (some bytes) f));
}

module _ (a : ℕ) (bytes : Ramdisk) where
  free_block-Stray :
      (c : ℕ) (o : Option (Option Ramdisk)) (s t : State)
      → c ≢ a
      → free_block c o s ≡ fine t
      → Stray a bytes s
      → Stray a bytes t
  unfolding free_block
  free_block-Stray c none s t ne e i = cc
  free_block-Stray c (some none) s t ne e i = cc
  free_block-Stray c (some (some b)) s t ne e i =
      let same : record s { heap = set s.heap c none } ≡ t = cc in
      record {
        live =
            ap (λ u. get_elem? u.heap a) (sym same) ∙ get_elem?-set_ne s.heap c a none ne ∙ i.live;
        elsewhere = λ f. i.elsewhere (ap (λ u. u.ramdisk) same ∙ f);
      }

  free-Stray :
      (o : Option ℕ) (s t : State)
      → o ≢ some a
      → free o s ≡ fine t
      → Stray a bytes s
      → Stray a bytes t
  unfolding free
  free-Stray none s t ne e i =
      let same : s ≡ t = cc in
      record {
        live = ap (λ u. get_elem? u.heap a) (sym same) ∙ i.live;
        elsewhere = λ f. i.elsewhere (ap (λ u. u.ramdisk) same ∙ f);
      }
  free-Stray (some c) s t ne e i =
      free_block-Stray c (get_elem? s.heap c) s t (λ f. ne (ap some f)) e i

  store-Stray :
      (o : Option ℕ) (b : Ramdisk) (s : State)
      → o ≢ some a
      → Stray a bytes s
      → Stray a bytes (store o b s)
  unfolding store
  store-Stray none b s ne i = i
  store-Stray (some c) b s ne i = record {
    live = get_elem?-set_ne s.heap c a (some b) (λ e. ne (ap some e)) ∙ i.live;
    elsewhere = i.elsewhere;
  }

  stored-Stray :
      (misuse : Fate (Transfer × State)) (o : Option ℕ) (s t : State) (r : Run Transfer)
      (x : Transfer)
      → o ≢ some a
      → misuse ≢ fine (x, t)
      → stored misuse o s r ≡ fine (x, t)
      → Stray a bytes s
      → Stray a bytes t
  unfolding stored
  stored-Stray misuse o s t (done y) x ne bad e i =
      let same : store o y.bytes s ≡ t = cc in
      let kept = store-Stray o y.bytes s ne i in
      record {
        live = ap (λ u. get_elem? u.heap a) (sym same) ∙ kept.live;
        elsewhere = λ f. kept.elsewhere (ap (λ u. u.ramdisk) same ∙ f);
      }
  stored-Stray misuse o s t running x ne bad e i = absurd (bad e)
  stored-Stray misuse o s t overrun x ne bad e i = absurd (bad e)

  Target-cases : (g : Target) → ((b : Ramdisk) × (g ≡ cells b)) ⊎ ((g ≡ freed) ⊎ (g ≡ wild))
  Target-cases (cells b) = inl (b, refl)
  Target-cases freed = inr (inl refl)
  Target-cases wild = inr (inr refl)

  write-Stray :
      (k : Kernel) (buf : List ℕ) (lbuf : ℕ) (f_pos : ℤ) (s t : State) (x : Transfer)
      → mycdrv_write k s buf lbuf f_pos ≡ fine (x, t)
      → Stray a bytes s
      → Stray a bytes t
  unfolding mycdrv_write
  write-Stray k buf lbuf f_pos s t x e i = elim (Target-cases (target s)) [
    | inl (b, g) ↦
        stored-Stray out_of_bounds s.ramdisk s t (Seek.mycdrv_write k b buf lbuf f_pos) x
          i.elsewhere (λ f. cc) (sym (rw (g, mycdrv_write)) ∙ e) i
    | inr (inl g) ↦
        stored-Stray use_after_free none s t (Seek.mycdrv_write k [] buf lbuf f_pos) x (λ f. cc)
          (λ f. cc) (sym (rw (g, mycdrv_write)) ∙ e) i
    | inr (inr g) ↦
        stored-Stray out_of_bounds none s t (Seek.mycdrv_write k [] buf lbuf f_pos) x (λ f. cc)
          (λ f. cc) (sym (rw (g, mycdrv_write)) ∙ e) i
  ]

  Step-Stray : {s t : State} → Step s t → Stray a bytes s → Stray a bytes t
  unfolding mycdrv_release my_exit
  Step-Stray {s} (opens block) i = opened s a bytes block i.live
  Step-Stray {s} {t} (writes k buf lbuf f_pos x e) i = write-Stray k buf lbuf f_pos s t x e i
  Step-Stray {s} {t} (releases e) i = free-Stray s.ramdisk s t i.elsewhere e i
  Step-Stray {s} {t} (unloads e) i = free-Stray s.ramdisk s t i.elsewhere e i

  Reach-Stray : {s t : State} → Reach s t → Stray a bytes s → Stray a bytes t
  Reach-Stray here i = i
  Reach-Stray (later r st) i = Step-Stray st (Reach-Stray r i)

-- A block that is allocated when the device is opened, by the module's init or an earlier open, is
-- lost: after any calls on the device and unloading of the module that do not misuse the heap, it
-- is still allocated and holds the bytes that it held, and the pointer is not on it.
pub Reach-mycdrv_open :
    {t : State} (s : State) (a : ℕ) (bytes : Ramdisk) (block : Option Ramdisk)
    → get_elem? s.heap a ≡ some (some bytes)
    → Reach (mycdrv_open block s) t
    → Stray a bytes t
Reach-mycdrv_open s a bytes block f r = Reach-Stray a bytes r (opened s a bytes block f)
