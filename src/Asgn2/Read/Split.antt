-- ===== src/Asgn2/Read/Split.antt =====
-- What a read gives, and what it leaves.
use petulant_wookie.Base.{
  ℕ, zero, suc, ◌≡◌, refl, ap, List, [], ◌∷◌, ◌++◌, ◌<◌, length, take, drop, true, false, ◌==◌,
  Bool-cases, inl, inr, arith,
}
use petulant_wookie.Asgn2.Read.Search.{before_null, has_null}

pub before_null_split :
    (count : ℕ) (xs : List ℕ)
    → before_null (take count xs) ++ drop (length (before_null (take count xs))) xs ≡ xs
unfolding before_null
before_null_split zero xs = refl
before_null_split (suc count) [] = refl
before_null_split (suc count) (x ∷ xs) = elim (Bool-cases (x == 0)) [
  | inl e ↦ rw e
  | inr e ↦ rw e (ap (λ l. x ∷ l) (before_null_split count xs))
]

-- After a null terminator was found, it is the next byte.
pub null_next :
    (count : ℕ) (xs : List ℕ)
    → has_null (take count xs) ≡ true
    → (bs : List ℕ) × (drop (length (before_null (take count xs))) xs ≡ 0 ∷ bs)
unfolding before_null has_null
null_next zero xs h = absurd (ground arith)
null_next (suc count) [] h = absurd (ground arith)
null_next (suc count) (x ∷ xs) h = elim (Bool-cases (x == 0)) [
  | inl e ↦ let is_zero : x ≡ 0 = ground arith in (xs, rw e (ap (λ b. b ∷ xs) is_zero))
  | inr e ↦
      let found : has_null (take count xs) ≡ true = ground arith in
      let (bs, next) = null_next count xs found in (bs, rw e next)
]

-- A null terminator in the first part of the bytes.
pub before_null-found :
    (xs ys : List ℕ)
    → has_null xs ≡ true
    → (before_null (xs ++ ys) ≡ before_null xs)
      × (has_null (xs ++ ys) ≡ true)
      × (length (before_null xs) < length xs)
unfolding before_null has_null
before_null-found [] ys h = absurd (ground arith)
before_null-found (x ∷ xs) ys h = elim (Bool-cases (x == 0)) [
  | inl e ↦ (rw e refl, rw e refl, rw e (omega arith))
  | inr e ↦
      let found : has_null xs ≡ true = ground arith in
      let (same, later, shorter) = before_null-found xs ys found in
      (rw e (ap (λ l. x ∷ l) same), rw e later, rw e (omega (arith, shorter)))
]

-- None there.
pub before_null-missed :
    (xs ys : List ℕ)
    → has_null xs ≡ false
    → (before_null (xs ++ ys) ≡ xs ++ before_null ys) × (has_null (xs ++ ys) ≡ has_null ys)
unfolding before_null has_null
before_null-missed [] ys h = (refl, refl)
before_null-missed (x ∷ xs) ys h = elim (Bool-cases (x == 0)) [
  | inl e ↦ absurd (ground arith)
  | inr e ↦
      let missed : has_null xs ≡ false = ground arith in
      let (same, later) = before_null-missed xs ys missed in
      (rw e (ap (λ l. x ∷ l) same), rw e later)
]
