-- ===== src/Asgn1/Client/Loops.antt =====
-- `my_fwrite` of asgn1/mmap_test.c on a file that takes some of the bytes at a time.
use petulant_wookie.Base.{
  ℕ, zero, suc, ◌-◌, ◌≤◌, ◌<◌, ◌^◌, ◌≡◌, refl, ◌∙◌, ap, sym, List, [], ◌∷◌, ◌++◌, append-nil,
  append_assoc, some, length, length-drop, take, take-all, drop, true, ltb_ℤ, pos, ◌-ℤ◌, wrap_int,
  to_int, to_int_small, to_size, sub_size, arith,
}
use petulant_wookie.Posix.{got, wrote, File}
use petulant_wookie.Asgn1.Client.{returned, fread_loop, fwrite_loop, my_fwrite}

-- Each write of at least one byte takes at least one, and appends those it takes.
abbrev pub Progresses : {S : Type 0} → File S → (S → List ℕ) → Type 0
Progresses {S} file received =
    (bs : List ℕ) (s : S)
    → 0 < length bs
    → (n : ℕ) × (s' : S) × (file.write bs s ≡ some (wrote n, s'))
      × (0 < n)
      × (n ≤ length bs)
      × (received s' ≡ received s ++ take n bs)

subtract : (a b : ℕ) → b ≤ a → a < 2 ^ 31 → wrap_int (pos a -ℤ pos b) ≡ pos (a - b)
unfolding ◌-ℤ◌
subtract a b h small = ground arith

take-drop-join : (n : ℕ) (xs : List ℕ) → take n xs ++ drop n xs ≡ xs
take-drop-join zero xs = refl
take-drop-join (suc n) [] = refl
take-drop-join (suc n) (x ∷ xs) = ap (λ t. x ∷ t) (take-drop-join n xs)

module _ {S : Type 0} (file : File S) where
  pub fread_ended :
      (fuel nbyte : ℕ) (buf : List ℕ) (s : S)
      → fread_loop file fuel nbyte (pos 0) buf s
        ≡ some (returned (to_int (sub_size nbyte 0)) buf, s)
  unfolding fread_loop
  fread_ended zero nbyte buf s = refl
  fread_ended (suc fuel) nbyte buf s = refl

  -- A read that gives all that is asked for.
  pub fread_round :
      (fuel n b : ℕ) (bytes : List ℕ) (s s' : S)
      → n ≡ length (b ∷ bytes)
      → n < 2 ^ 31
      → file.read n s ≡ some (got (b ∷ bytes), s')
      → fread_loop file (suc fuel) n (pos n) [] s ≡ some (returned (pos n) (b ∷ bytes), s')
  unfolding fread_loop
  fread_round fuel n b bytes s s' len small e =
      let more : ltb_ℤ (pos 0) (pos n) ≡ true = ground arith in
      let size : to_size (pos n) ≡ n = omega arith in
      let left : wrap_int (pos n -ℤ pos (length (b ∷ bytes))) ≡ pos 0 =
        subtract n (length (b ∷ bytes)) (omega arith) small
        ∙ ap pos (let z : n - length (b ∷ bytes) ≡ 0 = omega arith in z) in
      let count : to_int (sub_size n 0) ≡ pos n =
        ap to_int (let z : sub_size n 0 ≡ n = omega arith in z) ∙ to_int_small n small in
      rw (more, fread_loop)
        (rw (size, e)
          (ap (λ i. fread_loop file fuel n i (b ∷ bytes) s') left
            ∙ fread_ended fuel n (b ∷ bytes) s'
            ∙ ap (λ i. some (returned i (b ∷ bytes), s')) count))

  pub fwrite_ended :
      (fuel nbyte : ℕ) (buf : List ℕ) (s : S)
      → fwrite_loop file fuel nbyte (pos 0) buf s ≡ some (returned (to_int nbyte) buf, s)
  unfolding fwrite_loop
  fwrite_ended zero nbyte buf s = refl
  fwrite_ended (suc fuel) nbyte buf s = refl

  pub fwrite_round :
      (fuel nbyte n : ℕ) (buf : List ℕ) (s s' : S)
      → 0 < length buf
      → length buf < 2 ^ 31
      → n ≤ length buf
      → file.write buf s ≡ some (wrote n, s')
      → fwrite_loop file (suc fuel) nbyte (pos (length buf)) buf s
        ≡ fwrite_loop file fuel nbyte (pos (length buf - n)) (drop n buf) s'
  unfolding fwrite_loop
  fwrite_round fuel nbyte n buf s s' some_left small few e =
      let more : ltb_ℤ (pos 0) (pos (length buf)) ≡ true = ground arith in
      let all : take (to_size (pos (length buf))) buf ≡ buf =
        take-all (to_size (pos (length buf))) buf (omega arith) in
      rw (more, fwrite_loop)
        (rw (all, e)
          (ap (λ i. fwrite_loop file fuel nbyte i (drop n buf) s')
            (subtract (length buf) n few small)))

  fwrite_all :
      (received : S → List ℕ) (fuel nbyte : ℕ) (buf : List ℕ) (s : S)
      → Progresses file received
      → length buf ≤ fuel
      → length buf < 2 ^ 31
      → (s' : S) × (fwrite_loop file fuel nbyte (pos (length buf)) buf s
          ≡ some (returned (to_int nbyte) [], s'))
        × (received s' ≡ received s ++ buf)
  fwrite_all received fuel nbyte [] s pr h small =
      (s, fwrite_ended fuel nbyte [] s, sym (append-nil (received s)))
  fwrite_all received zero nbyte (b ∷ bs) s pr h small = absurd (omega arith)
  fwrite_all received (suc fuel) nbyte (b ∷ bs) s pr h small =
      let buf = b ∷ bs in
      let (n, s1, e, some_taken, few, first) = pr buf s (omega arith) in
      let rest = drop n buf in
      let left : length rest ≡ length buf - n = length-drop n buf in
      let (s', run, last) =
        fwrite_all received fuel nbyte rest s1 pr (omega (arith, left)) (omega (arith, left)) in
      (
        s',
        fwrite_round fuel nbyte n buf s s1 (omega arith) small few e
            ∙ ap (λ m. fwrite_loop file fuel nbyte (pos m) rest s1) (sym left)
            ∙ run,
        last
            ∙ ap (λ l. l ++ rest) first
            ∙ append_assoc (received s) (take n buf) rest
            ∙ ap (λ l. received s ++ l) (take-drop-join n buf),
      )

  -- On a file where each write takes at least one byte, however few, my_fwrite of a buffer of less
  -- than 2^31 bytes returns, with fuel for each byte: it returns the length of the buffer, and the
  -- file has received the whole buffer, in order and each byte once.
  pub my_fwrite_lem :
      (received : S → List ℕ) (fuel : ℕ) (buf : List ℕ) (s : S)
      → Progresses file received
      → length buf ≤ fuel
      → length buf < 2 ^ 31
      → (s' : S) × (my_fwrite file fuel buf (length buf) s
          ≡ some (returned (pos (length buf)) [], s'))
        × (received s' ≡ received s ++ buf)
  unfolding my_fwrite
  my_fwrite_lem received fuel buf s pr h small =
      let (s', e, r) = fwrite_all received fuel (length buf) buf s pr h small in
      let int = to_int_small (length buf) small in
      (
        s',
        ap (λ i. fwrite_loop file fuel (length buf) i buf s) int
            ∙ e
            ∙ ap (λ i. some (returned i [], s')) int,
        r,
      )
