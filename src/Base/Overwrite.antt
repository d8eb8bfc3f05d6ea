-- ===== src/Base/Overwrite.antt =====
-- Laws of `overwrite`, the in-place write of several cells.
use Prim.Native.Nat.{ℕ, zero, suc, ◌+◌, ◌-◌, ◌≤◌}
use mathlib.Core.Path.{◌≡◌, refl, ap, ◌∙◌}
use mathlib.Core.List.{List, [], ◌∷◌, ◌++◌}
use native.Mathlib.Omega.{arith}
use petulant_wookie.Base.Lists.{length, take, drop, overwrite}

module _ {ℓ} {A : Type ℓ} where
  pub length-overwrite : (i : ℕ) (bs xs : List A) → length (overwrite i bs xs) ≡ length xs
  unfolding overwrite
  length-overwrite zero [] xs = refl
  length-overwrite zero (b ∷ bs) [] = refl
  length-overwrite zero (b ∷ bs) (x ∷ xs) = ap suc (length-overwrite zero bs xs)
  length-overwrite (suc i) bs [] = refl
  length-overwrite (suc i) bs (x ∷ xs) = ap suc (length-overwrite i bs xs)

  pub overwrite-nil : (i : ℕ) (xs : List A) → overwrite i [] xs ≡ xs
  unfolding overwrite
  overwrite-nil zero xs = refl
  overwrite-nil (suc i) [] = refl
  overwrite-nil (suc i) (x ∷ xs) = ap (λ t. x ∷ t) (overwrite-nil i xs)

  pub overwrite-on_nil : (i : ℕ) (bs : List A) → overwrite i bs [] ≡ []
  unfolding overwrite
  overwrite-on_nil zero [] = refl
  overwrite-on_nil zero (b ∷ bs) = refl
  overwrite-on_nil (suc i) bs = refl

  -- A write in two parts is the write of the whole.
  pub overwrite-append :
      (i j : ℕ) (cs bs xs : List A)
      → j ≡ i + length cs
      → overwrite i (cs ++ bs) xs ≡ overwrite j bs (overwrite i cs xs)
  unfolding overwrite
  overwrite-append zero j [] bs xs e =
      let e' : 0 ≡ j = omega arith in ap (λ k. overwrite k bs xs) e'
  overwrite-append zero zero (a ∷ cs) bs xs e = absurd (omega arith)
  overwrite-append zero (suc j) (a ∷ cs) bs [] e = refl
  overwrite-append zero (suc j) (a ∷ cs) bs (x ∷ xs) e =
      ap (λ t. a ∷ t) (overwrite-append zero j cs bs xs (omega arith))
  overwrite-append (suc i) zero cs bs xs e = absurd (omega arith)
  overwrite-append (suc i) (suc j) cs bs [] e = refl
  overwrite-append (suc i) (suc j) cs bs (x ∷ xs) e =
      ap (λ t. x ∷ t) (overwrite-append i j cs bs xs (omega arith))

  -- A write that starts `r` cells before the end of `p` goes on at the start of what follows.
  pub overwrite-split :
      (i r : ℕ) (bs p rest : List A)
      → i + r ≡ length p
      → overwrite i bs (p ++ rest) ≡ overwrite i (take r bs) p ++ overwrite 0 (drop r bs) rest
  unfolding overwrite
  overwrite-split (suc i) r bs [] rest h = absurd (omega arith)
  overwrite-split (suc i) r bs (x ∷ p) rest h =
      ap (λ t. x ∷ t) (overwrite-split i r bs p rest (omega arith))
  overwrite-split zero zero bs [] rest h = refl
  overwrite-split zero zero bs (x ∷ p) rest h = absurd (omega arith)
  overwrite-split zero (suc r) bs [] rest h = absurd (omega arith)
  overwrite-split zero (suc r) [] (x ∷ p) rest h = ap (λ t. x ∷ (p ++ t)) (overwrite-nil 0 rest)
  overwrite-split zero (suc r) (b ∷ bs) (x ∷ p) rest h =
      ap (λ t. b ∷ t) (overwrite-split zero r bs p rest (omega arith))

  pub overwrite-skip :
      (i : ℕ) (bs p rest : List A)
      → length p ≤ i
      → overwrite i bs (p ++ rest) ≡ p ++ overwrite (i - length p) bs rest
  unfolding overwrite
  overwrite-skip i bs [] rest h = let e : i ≡ i - 0 = omega arith in ap (λ k. overwrite k bs rest) e
  overwrite-skip zero bs (x ∷ p) rest h = absurd (omega arith)
  overwrite-skip (suc i) bs (x ∷ p) rest h =
      let e : i - length p ≡ suc i - suc (length p) = omega arith in
      ap (λ t. x ∷ t)
        (overwrite-skip i bs p rest (omega arith) ∙ ap (λ k. p ++ overwrite k bs rest) e)

  -- What was written reads back.
  pub take-drop-overwrite :
      (i : ℕ) (bs xs : List A)
      → i + length bs ≤ length xs
      → take (length bs) (drop i (overwrite i bs xs)) ≡ bs
  unfolding overwrite
  take-drop-overwrite zero [] xs h = refl
  take-drop-overwrite zero (b ∷ bs) [] h = absurd (omega arith)
  take-drop-overwrite zero (b ∷ bs) (x ∷ xs) h =
      ap (λ t. b ∷ t) (take-drop-overwrite zero bs xs (omega arith))
  take-drop-overwrite (suc i) bs [] h = absurd (omega arith)
  take-drop-overwrite (suc i) bs (x ∷ xs) h = take-drop-overwrite i bs xs (omega arith)

  -- The bytes in front of those that are put there.
  pub take-drop-overwrite_append :
      (i : ℕ) (bs cs xs : List A)
      → i + length bs ≤ length xs
      → take (length bs) (drop i (overwrite i (bs ++ cs) xs)) ≡ bs
  unfolding overwrite
  take-drop-overwrite_append zero [] cs xs h = refl
  take-drop-overwrite_append zero (b ∷ bs) cs [] h = absurd (omega arith)
  take-drop-overwrite_append zero (b ∷ bs) cs (x ∷ xs) h =
      ap (λ t. b ∷ t) (take-drop-overwrite_append zero bs cs xs (omega arith))
  take-drop-overwrite_append (suc i) bs cs [] h = absurd (omega arith)
  take-drop-overwrite_append (suc i) bs cs (x ∷ xs) h =
      take-drop-overwrite_append i bs cs xs (omega arith)

  pub take-overwrite : (i : ℕ) (bs xs : List A) → take i (overwrite i bs xs) ≡ take i xs
  unfolding overwrite
  take-overwrite zero bs xs = refl
  take-overwrite (suc i) bs [] = refl
  take-overwrite (suc i) bs (x ∷ xs) = ap (λ t. x ∷ t) (take-overwrite i bs xs)

  pub drop-overwrite :
      (i k : ℕ) (bs xs : List A) → i + length bs ≤ k → drop k (overwrite i bs xs) ≡ drop k xs
  unfolding overwrite
  drop-overwrite zero k [] xs h = refl
  drop-overwrite zero zero (b ∷ bs) xs h = absurd (omega arith)
  drop-overwrite zero (suc k) (b ∷ bs) [] h = refl
  drop-overwrite zero (suc k) (b ∷ bs) (x ∷ xs) h = drop-overwrite zero k bs xs (omega arith)
  drop-overwrite (suc i) zero bs xs h = absurd (omega arith)
  drop-overwrite (suc i) (suc k) bs [] h = refl
  drop-overwrite (suc i) (suc k) bs (x ∷ xs) h = drop-overwrite i k bs xs (omega arith)
