-- ===== src/Lab1/MyCat/Stuck.antt =====
-- Lab1/my_cat.c after a write that takes a part of what it is given.
use petulant_wookie.Base.{
  ℕ, zero, suc, ◌≤◌, ◌<◌, ◌^◌, ◌≡◌, refl, ◌∙◌, ap, List, ◌∷◌, Option, none, some, length,
  length-take, take, take-all, drop, lt→ltb, true, arith, add_size, sub_size, ◌⊎◌, inl, inr,
}
use petulant_wookie.Posix.{got, WriteResult, wrote, write_eintr, write_error, File}
use petulant_wookie.Lab1.MyCat.{buffer_size, flush, copy, main}

-- No write fails, and none takes more than it is given; it may be interrupted, or not return.
abbrev pub Accepts : {T : Type 0} → ℕ → Option (WriteResult × T) → Type 0
Accepts n none = Unit
Accepts n (some (wrote m, _)) = m ≤ n
Accepts n (some (write_eintr, _)) = Unit
Accepts n (some (write_error, _)) = ⊥

abbrev pub NeverFails : {T : Type 0} → File T → Type 0
NeverFails {T} out = (bs : List ℕ) (t : T) → Accepts (length bs) (out.write bs t)

-- What one call of `write` can be.
call_cases :
    {T : Type 0} (n : ℕ) (r : Option (WriteResult × T))
    → Accepts n r
    → (r ≡ none)
      ⊎ (((t : T) × (r ≡ some (write_eintr, t)))
          ⊎ ((m : ℕ) × (t : T) × (r ≡ some (wrote m, t)) × (m ≤ n)))
call_cases n none h = inl refl
call_cases n (some (wrote m, t)) h = inr (inr (m, t, refl, h))
call_cases n (some (write_eintr, t)) h = inr (inl (t, refl))
call_cases n (some (write_error, t)) h = absurd h

module _ {T : Type 0} (out : File T) where
  flush_more :
      (fuel : ℕ) (buf : List ℕ) (size_read written left m : ℕ) (t t' : T)
      → out.write (take left (drop written buf)) t ≡ some (wrote m, t')
      → m < size_read
      → flush out (suc fuel) buf size_read written left t
        ≡ flush out fuel buf size_read (add_size written m) (sub_size left m) t'
  unfolding flush
  flush_more fuel buf size_read written left m t t' e h = rw (e, flush) (rw (lt→ltb m size_read h))

  -- With less left than was read, the loop's test never fails.
  flush_stuck :
      (fuel : ℕ) (buf : List ℕ) (size_read written left : ℕ) (t : T)
      → NeverFails out
      → left < size_read
      → size_read < 2 ^ 32
      → flush out fuel buf size_read written left t ≡ none
  unfolding flush
  flush_stuck zero buf size_read written left t accepts h small = refl
  flush_stuck (suc fuel) buf size_read written left t accepts h small =
      let bs = take left (drop written buf) in
      let short : length bs ≤ left = omega (arith, length-take left (drop written buf)) in
      elim (call_cases (length bs) (out.write bs t) (accepts bs t)) [
        | inl e ↦ rw (e, flush)
        | inr (inl (t', e)) ↦
            rw (e, flush) (flush_stuck fuel buf size_read written left t' accepts h small)
        | inr (inr (m, t', e, few)) ↦
            flush_more fuel buf size_read written left m t t' e (omega arith)
            ∙ flush_stuck fuel buf size_read (add_size written m) (sub_size left m) t' accepts
                (omega arith) small
      ]

copy_stuck :
    {S T : Type 0} (file : File S) (out : File T) (fuel inner : ℕ) (s s' : S) (t : T) (b : ℕ)
    (bytes : List ℕ)
    → file.read buffer_size s ≡ some (got (b ∷ bytes), s')
    → flush out inner (b ∷ bytes) (length (b ∷ bytes)) 0 (length (b ∷ bytes)) t ≡ none
    → copy file out fuel inner s t ≡ none
unfolding copy
copy_stuck file out zero inner s s' t b bytes e f = refl
copy_stuck file out (suc fuel) inner s s' t b bytes e f = rw (e, copy) (rw f)

-- If the first write of what was read takes a part of it, neither nothing nor all, and no write fails,
-- my_cat never returns: no amount of fuel is enough, whatever the later writes do.
pub main_stuck :
    {S T : Type 0} (file : File S) (out : File T) (fuel inner w : ℕ) (s s' : S) (t t' : T) (b : ℕ)
    (bytes : List ℕ)
    → NeverFails out
    → file.read buffer_size s ≡ some (got (b ∷ bytes), s')
    → out.write (b ∷ bytes) t ≡ some (wrote w, t')
    → 0 < w
    → w < length (b ∷ bytes)
    → length (b ∷ bytes) ≤ buffer_size
    → main file out true true fuel inner s t ≡ none
unfolding main
main_stuck file out fuel inner w s s' t t' b bytes accepts r wr some_taken part small =
    copy_stuck file out fuel inner s s' t b bytes r (first inner)
  where
    n : ℕ
    n = length (b ∷ bytes)

    first : (inner' : ℕ) → flush out inner' (b ∷ bytes) n 0 n t ≡ none
    first zero = refl
    first (suc inner') =
        flush_more out inner' (b ∷ bytes) n 0 n w t t'
          (ap (λ l. out.write l t) (take-all n (b ∷ bytes) (omega arith)) ∙ wr) part
        ∙ flush_stuck out inner' (b ∷ bytes) n (add_size 0 w) (sub_size n w) t' accepts
            (omega arith) (omega arith)
