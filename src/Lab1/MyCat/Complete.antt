-- ===== src/Lab1/MyCat/Complete.antt =====
-- Lab1/my_cat.c where every write takes all that it is given.
use petulant_wookie.Base.{
  ℕ, zero, suc, ◌≤◌, ◌<◌, ◌≡◌, ◌∙◌, ap, sym, List, [], ◌∷◌, ◌++◌, append-nil, append_assoc, Option,
  some, length, take, take-all, ltb, le→ltb_false, true, false, arith,
}
use petulant_wookie.Posix.{got, read_eintr, wrote, File, Exit, success}
use petulant_wookie.Lab1.MyCat.{buffer_size, flushed, flush, copy, main}

-- Reading from `s` on gives these bytes and then the end of the file, in `n` calls, some of which may
-- be interrupted.
pub data Reads {S : Type 0} (file : File S) : ℕ → S → List ℕ → Type 0 where
  ended : {s s' : S} → file.read buffer_size s ≡ some (got [], s') → Reads file 1 s []
  retried :
      {n : ℕ} {s s' : S} {bs : List ℕ}
      → file.read buffer_size s ≡ some (read_eintr, s')
      → Reads file n s' bs
      → Reads file (suc n) s bs
  chunk :
      {n : ℕ} {s s' : S} {bs all : List ℕ} (b : ℕ) (bytes : List ℕ)
      → file.read buffer_size s ≡ some (got (b ∷ bytes), s')
      → Reads file n s' bs
      → all ≡ (b ∷ bytes) ++ bs
      → Reads file (suc n) s all

-- Each write appends all of its bytes to what the file has received.
abbrev pub TakesAll : {T : Type 0} → File T → (T → List ℕ) → Type 0
TakesAll {T} out received =
    (bs : List ℕ) (t : T)
    → (t' : T) × (out.write bs t ≡ some (wrote (length bs), t')) × (received t' ≡ received t ++ bs)

module _ {T : Type 0} (out : File T) (received : T → List ℕ) (takes : TakesAll out received) where
  flush_once :
      (fuel : ℕ) (bs : List ℕ) (t : T)
      → (t' : T) × (flush out (suc fuel) bs (length bs) 0 (length bs) t ≡ some (flushed t'))
        × (received t' ≡ received t ++ bs)
  unfolding flush
  flush_once fuel bs t =
      let (t', e, r) = takes bs t in
      let all : take (length bs) bs ≡ bs = take-all (length bs) bs (omega arith) in
      let ends : ltb (length bs) (length bs) ≡ false =
        le→ltb_false (length bs) (length bs) (omega arith) in
      (t', rw (all, flush) (rw (e, ends)), r)

module _ {S T : Type 0} (file : File S) (out : File T) (received : T → List ℕ)
    (takes : TakesAll out received) where
  -- What a run of the outer loop comes to.
  Copied : List ℕ → T → Option (Exit × S × T) → Type 0
  Copied all t r =
      (s' : S) × (t' : T) × (r ≡ some (success, s', t')) × (received t' ≡ received t ++ all)

  copy_ended :
      (fuel inner : ℕ) (s s' : S) (t : T)
      → file.read buffer_size s ≡ some (got [], s')
      → copy file out (suc fuel) inner s t ≡ some (success, s', t)
  unfolding copy
  copy_ended fuel inner s s' t e = rw (e, copy)

  copy_retried :
      (fuel inner : ℕ) (s s' : S) (t : T)
      → file.read buffer_size s ≡ some (read_eintr, s')
      → copy file out (suc fuel) inner s t ≡ copy file out fuel inner s' t
  unfolding copy
  copy_retried fuel inner s s' t e = rw (e, copy)

  copy_chunk :
      (fuel inner : ℕ) (s s' : S) (t t' : T) (b : ℕ) (bytes : List ℕ)
      → file.read buffer_size s ≡ some (got (b ∷ bytes), s')
      → flush out inner (b ∷ bytes) (length (b ∷ bytes)) 0 (length (b ∷ bytes)) t
        ≡ some (flushed t')
      → copy file out (suc fuel) inner s t ≡ copy file out fuel inner s' t'
  unfolding copy
  copy_chunk fuel inner s s' t t' b bytes e f = rw (e, copy) (rw f)

  copy_lem :
      (fuel inner n : ℕ) (s : S) (t : T) (all : List ℕ)
      → Reads file n s all
      → n ≤ fuel
      → Copied all t (copy file out fuel (suc inner) s t)
  unfolding Copied
  copy_lem zero inner _ s t _ (ended e) h = absurd (omega arith)
  copy_lem (suc fuel) inner _ s t _ (ended {s' = s'} e) h =
      (s', t, copy_ended fuel (suc inner) s s' t e, sym (append-nil (received t)))
  copy_lem zero inner _ s t all (retried e r) h = absurd (omega arith)
  copy_lem (suc fuel) inner _ s t all (retried {n = n} {s' = s1} e r) h =
      let (s', t', run, same) = copy_lem fuel inner n s1 t all r (omega arith) in
      (s', t', copy_retried fuel (suc inner) s s1 t e ∙ run, same)
  copy_lem zero inner _ s t all (chunk b bytes e r eq) h = absurd (omega arith)
  copy_lem (suc fuel) inner _ s t all (chunk {n = n} {s' = s1} {bs = bs} b bytes e r eq) h =
      let (t1, f, first) = flush_once out received takes inner (b ∷ bytes) t in
      let (s', t', run, same) = copy_lem fuel inner n s1 t1 bs r (omega arith) in
      (
        s',
        t',
        copy_chunk fuel (suc inner) s s1 t t1 b bytes e f ∙ run,
        same
            ∙ ap (λ l. l ++ bs) first
            ∙ append_assoc (received t) (b ∷ bytes) bs
            ∙ ap (λ l. received t ++ l) (sym eq),
      )

  -- If every write takes all its bytes, and reading the file gives some bytes and then its end in
  -- `n` calls, interrupted ones among them, my_cat ends with success, with fuel for `n` rounds and
  -- for one of the inner loop, and the output has received exactly those bytes, in order.
  pub main_lem :
      (fuel inner n : ℕ) (s : S) (t : T) (all : List ℕ)
      → Reads file n s all
      → n ≤ fuel
      → 0 < inner
      → (s' : S) × (t' : T) × (main file out true true fuel inner s t ≡ some (success, s', t'))
        × (received t' ≡ received t ++ all)
  unfolding main Copied
  main_lem fuel zero n s t all r h i = absurd (omega arith)
  main_lem fuel (suc inner) n s t all r h i = copy_lem fuel inner n s t all r h
