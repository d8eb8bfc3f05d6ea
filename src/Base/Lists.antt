-- ===== src/Base/Lists.antt =====
-- Lists measured and indexed by native numbers; `overwrite` is a write of several cells in place.
use Prim.Native.Nat.{ℕ, zero, suc, ◌+◌, ◌-◌, ◌*◌, ◌≤◌, ◌<◌, min}
use mathlib.Core.Logic.{◌≢◌}
use mathlib.Core.Path.{◌≡◌, refl, ap, sym, ◌∙◌}
use mathlib.Core.List.{List, [], ◌∷◌, ◌++◌, append_assoc}
use mathlib.Core.Option.{Option, none, some}
use native.Mathlib.Omega.{arith}

module _ {ℓ} {A : Type ℓ} where
  abbrev pub length : List A → ℕ
  length [] = 0
  length (x ∷ xs) = suc (length xs)

  abbrev pub get_elem? : List A → ℕ → Option A
  get_elem? [] i = none
  get_elem? (x ∷ xs) zero = some x
  get_elem? (x ∷ xs) (suc i) = get_elem? xs i

  abbrev pub take : ℕ → List A → List A
  take zero xs = []
  take (suc n) [] = []
  take (suc n) (x ∷ xs) = x ∷ take n xs

  abbrev pub drop : ℕ → List A → List A
  drop zero xs = xs
  drop (suc n) [] = []
  drop (suc n) (x ∷ xs) = drop n xs

  abbrev pub replicate : ℕ → A → List A
  replicate zero a = []
  replicate (suc n) a = a ∷ replicate n a

  -- `memcpy(xs + i, bs, length(bs))`; cells past the end of `xs` are not written.
  unfoldable pub overwrite : ℕ → List A → List A → List A
  overwrite zero [] xs = xs
  overwrite zero (b ∷ bs) [] = []
  overwrite zero (b ∷ bs) (x ∷ xs) = b ∷ overwrite zero bs xs
  overwrite (suc i) bs [] = []
  overwrite (suc i) bs (x ∷ xs) = x ∷ overwrite i bs xs

  abbrev pub concat : List (List A) → List A
  concat [] = []
  concat (p ∷ ps) = p ++ concat ps

  -- Every block of the list has `n` cells.
  abbrev pub AllLength : ℕ → List (List A) → Type 0
  AllLength n [] = Unit
  AllLength n (p ∷ ps) = (length p ≡ n) × AllLength n ps

module _ {ℓ} {A : Type ℓ} where
  pub length-append : (xs ys : List A) → length (xs ++ ys) ≡ length xs + length ys
  length-append [] ys = omega arith
  length-append (x ∷ xs) ys = omega (arith, length-append xs ys)

  pub length-take : (n : ℕ) (xs : List A) → length (take n xs) ≡ min n (length xs)
  length-take zero xs = omega arith
  length-take (suc n) [] = omega arith
  length-take (suc n) (x ∷ xs) = omega (arith, length-take n xs)

  pub length-drop : (n : ℕ) (xs : List A) → length (drop n xs) ≡ length xs - n
  length-drop zero xs = omega arith
  length-drop (suc n) [] = omega arith
  length-drop (suc n) (x ∷ xs) = omega (arith, length-drop n xs)

  pub take-nil : (n : ℕ) → take {A = A} n [] ≡ []
  take-nil zero = refl
  take-nil (suc n) = refl

  pub drop-nil : (n : ℕ) → drop {A = A} n [] ≡ []
  drop-nil zero = refl
  drop-nil (suc n) = refl

  pub take-all : (n : ℕ) (xs : List A) → length xs ≤ n → take n xs ≡ xs
  take-all zero [] h = refl
  take-all zero (x ∷ xs) h = absurd (omega arith)
  take-all (suc n) [] h = refl
  take-all (suc n) (x ∷ xs) h = ap (λ t. x ∷ t) (take-all n xs (omega arith))

  pub drop-all : (n : ℕ) (xs : List A) → length xs ≤ n → drop n xs ≡ []
  drop-all zero [] h = refl
  drop-all zero (x ∷ xs) h = absurd (omega arith)
  drop-all (suc n) [] h = refl
  drop-all (suc n) (x ∷ xs) h = drop-all n xs (omega arith)

  pub take-add : (m n : ℕ) (xs : List A) → take (m + n) xs ≡ take m xs ++ take n (drop m xs)
  take-add zero n xs = ap (λ k. take k xs) (omega arith)
  take-add (suc m) n [] = rw (take-nil (suc m + n), take-nil n)
  take-add (suc m) n (x ∷ xs) =
      let e : suc m + n ≡ suc (m + n) = omega arith in rw e (ap (λ t. x ∷ t) (take-add m n xs))

  pub drop-drop : (m n : ℕ) (xs : List A) → drop n (drop m xs) ≡ drop (m + n) xs
  drop-drop zero n xs = ap (λ k. drop k xs) (omega arith)
  drop-drop (suc m) n [] = rw (drop-nil n, drop-nil (suc m + n))
  drop-drop (suc m) n (x ∷ xs) =
      let e : suc m + n ≡ suc (m + n) = omega arith in rw e (drop-drop m n xs)

  -- A window that starts `r` cells before the end of `xs` takes those and goes on in `ys`.
  pub take-drop-append :
      (n i r : ℕ) (xs ys : List A)
      → i + r ≡ length xs
      → take n (drop i (xs ++ ys)) ≡ take n (drop i xs) ++ take (n - r) ys
  take-drop-append n (suc i) r [] ys h = absurd (omega arith)
  take-drop-append n (suc i) r (x ∷ xs) ys h = take-drop-append n i r xs ys (omega arith)
  take-drop-append n zero r [] ys h =
      let e : n ≡ n - r = omega arith in rw (take-nil n) (ap (λ k. take k ys) e)
  take-drop-append zero zero r (x ∷ xs) ys h =
      let e : 0 ≡ 0 - r = omega arith in ap (λ k. take k ys) e
  take-drop-append (suc n) zero zero (x ∷ xs) ys h = absurd (omega arith)
  take-drop-append (suc n) zero (suc r) (x ∷ xs) ys h =
      let e : n - r ≡ suc n - suc r = omega arith in
      ap (λ t. x ∷ t)
        (take-drop-append n zero r xs ys (omega arith) ∙ ap (λ k. take n xs ++ take k ys) e)

  pub drop-append_ge :
      (i : ℕ) (xs ys : List A) → length xs ≤ i → drop i (xs ++ ys) ≡ drop (i - length xs) ys
  drop-append_ge i [] ys h = ap (λ k. drop k ys) (omega arith)
  drop-append_ge zero (x ∷ xs) ys h = absurd (omega arith)
  drop-append_ge (suc i) (x ∷ xs) ys h =
      drop-append_ge i xs ys (omega arith) ∙ ap (λ k. drop k ys) (omega arith)

  pub drop-append_le :
      (i : ℕ) (xs ys : List A) → i ≤ length xs → drop i (xs ++ ys) ≡ drop i xs ++ ys
  drop-append_le zero xs ys h = refl
  drop-append_le (suc i) [] ys h = absurd (omega arith)
  drop-append_le (suc i) (x ∷ xs) ys h = drop-append_le i xs ys (omega arith)

  pub take-min : (n : ℕ) (xs : List A) → take (min n (length xs)) xs ≡ take n xs
  take-min zero xs = let e : min 0 (length xs) ≡ 0 = omega arith in ap (λ k. take k xs) e
  take-min (suc n) [] = rw (take-nil (min (suc n) 0))
  take-min (suc n) (x ∷ xs) =
      let e : min (suc n) (suc (length xs)) ≡ suc (min n (length xs)) = omega arith in
      ap (λ k. take k (x ∷ xs)) e ∙ ap (λ t. x ∷ t) (take-min n xs)

  pub length-concat :
      (n : ℕ) (ps : List (List A)) → AllLength n ps → length (concat ps) ≡ length ps * n
  length-concat n [] h = omega arith
  length-concat n (p ∷ ps) h =
      omega (arith, length-append p (concat ps), length-concat n ps h.1, h.0)

  pub take-take : (r n : ℕ) (xs : List A) → take r (take n xs) ≡ take (min n r) xs
  take-take zero n xs = let e : 0 ≡ min n 0 = omega arith in ap (λ k. take k xs) e
  take-take (suc r) zero xs = let e : 0 ≡ min 0 (suc r) = omega arith in ap (λ k. take k xs) e
  take-take (suc r) (suc n) [] = sym (take-nil (min (suc n) (suc r)))
  take-take (suc r) (suc n) (x ∷ xs) =
      let e : suc (min n r) ≡ min (suc n) (suc r) = omega arith in
      ap (λ t. x ∷ t) (take-take r n xs) ∙ ap (λ k. take k (x ∷ xs)) e

  pub drop-take : (r n : ℕ) (xs : List A) → drop r (take n xs) ≡ take (n - r) (drop r xs)
  drop-take zero n xs = let e : n ≡ n - 0 = omega arith in ap (λ k. take k xs) e
  drop-take (suc r) zero xs =
      let e : 0 ≡ 0 - suc r = omega arith in ap (λ k. take k (drop (suc r) xs)) e
  drop-take (suc r) (suc n) [] = sym (take-nil (suc n - suc r))
  drop-take (suc r) (suc n) (x ∷ xs) =
      let e : n - r ≡ suc n - suc r = omega arith in
      drop-take r n xs ∙ ap (λ k. take k (drop r xs)) e

  pub concat-append : (ps qs : List (List A)) → concat (ps ++ qs) ≡ concat ps ++ concat qs
  concat-append [] qs = refl
  concat-append (p ∷ ps) qs =
      ap (λ t. p ++ t) (concat-append ps qs) ∙ sym (append_assoc p (concat ps) (concat qs))

  pub AllLength-append :
      (n : ℕ) (ps qs : List (List A)) → AllLength n ps → AllLength n qs → AllLength n (ps ++ qs)
  AllLength-append n [] qs hp hq = hq
  AllLength-append n (p ∷ ps) qs hp hq = (hp.0, AllLength-append n ps qs hp.1 hq)

module _ {ℓ} {A : Type ℓ} where
  abbrev pub get_or : List A → ℕ → A → A
  get_or [] i d = d
  get_or (x ∷ xs) zero d = x
  get_or (x ∷ xs) (suc i) d = get_or xs i d

  -- An assignment to one cell; out of bounds it changes nothing.
  abbrev pub set : List A → ℕ → A → List A
  set [] i v = []
  set (x ∷ xs) zero v = v ∷ xs
  set (x ∷ xs) (suc i) v = x ∷ set xs i v

  pub length-set : (xs : List A) (i : ℕ) (v : A) → length (set xs i v) ≡ length xs
  length-set [] i v = refl
  length-set (x ∷ xs) zero v = refl
  length-set (x ∷ xs) (suc i) v = ap suc (length-set xs i v)

  pub get_or-set_self :
      (xs : List A) (i : ℕ) (v d : A) → i < length xs → get_or (set xs i v) i d ≡ v
  get_or-set_self [] i v d h = absurd (omega arith)
  get_or-set_self (x ∷ xs) zero v d h = refl
  get_or-set_self (x ∷ xs) (suc i) v d h = get_or-set_self xs i v d (omega arith)

  pub get_or-set_ne :
      (xs : List A) (i j : ℕ) (v d : A) → i ≢ j → get_or (set xs i v) j d ≡ get_or xs j d
  get_or-set_ne [] i j v d h = refl
  get_or-set_ne (x ∷ xs) zero zero v d h = absurd (omega arith)
  get_or-set_ne (x ∷ xs) zero (suc j) v d h = refl
  get_or-set_ne (x ∷ xs) (suc i) zero v d h = refl
  get_or-set_ne (x ∷ xs) (suc i) (suc j) v d h = get_or-set_ne xs i j v d (omega arith)
