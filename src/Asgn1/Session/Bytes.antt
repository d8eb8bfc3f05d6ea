-- ===== src/Asgn1/Session/Bytes.antt =====
-- The bytes of the device of asgn1/asgn1.c before and after a read and a write.
use petulant_wookie.Base.{
  ℕ, zero, suc, ◌∷◌, ◌+◌, ◌-◌, ◌≤◌, ◌≡◌, refl, ◌∙◌, ap, ap₂, sym, List, [], ◌++◌, append-nil,
  append_assoc, length, take, drop, take-add, take-take, drop-take, take-overwrite, drop-overwrite,
  take-drop-overwrite, overwrite, min, max, arith,
}
use petulant_wookie.Asgn1.File.{splice, at}

-- What a read gives is in the data.
pub at-take :
    (count p size : ℕ) (cells : List ℕ)
    → at count p (take size cells) ≡ take (min count (size - p)) (drop p cells)
at-take count p size cells =
    ap (take count) (drop-take p size cells)
    ∙ take-take count (size - p) (drop p cells)
    ∙ ap (λ n. take n (drop p cells))
        (let z : min (size - p) count ≡ min count (size - p) = omega arith in z)

pub take-append_short : (n : ℕ) (xs ys : List ℕ) → n ≤ length xs → take n (xs ++ ys) ≡ take n xs
take-append_short zero xs ys h = refl
take-append_short (suc n) [] ys h = absurd (omega arith)
take-append_short (suc n) (x ∷ xs) ys h = ap (λ t. x ∷ t) (take-append_short n xs ys (omega arith))

-- A write is seen up to its end, and beyond as far as the data went.
take-overwrite_to :
    (p e : ℕ) (buf cells : List ℕ)
    → p + length buf ≤ length cells
    → take (p + length buf + e) (overwrite p buf cells)
      ≡ take p cells ++ (buf ++ take e (drop (p + length buf) cells))
take-overwrite_to p e buf cells h =
    let over = overwrite p buf cells in
    let n = length buf in
    take-add (p + n) e over
    ∙ ap₂ ◌++◌
        (take-add p n over
          ∙ ap₂ ◌++◌ (take-overwrite p buf cells) (take-drop-overwrite p buf cells h))
        (ap (take e) (drop-overwrite p (p + n) buf cells (omega arith)))
    ∙ append_assoc (take p cells) buf (take e (drop (p + n) cells))

module _ (p size : ℕ) (buf cells : List ℕ) (room : p + length buf ≤ length cells) where
  -- A write in the data or right behind it.
  pub splice_lem :
      p ≤ size
      → size ≤ length cells
      → take (max size (p + length buf)) (overwrite p buf cells) ≡ splice p buf (take size cells)
  splice_lem h fits =
      let n = length buf in
      let e = size - (p + n) in
      let before : take p (take size cells) ≡ take p cells =
        take-take p size cells
        ∙ ap (λ m. take m cells) (let z : min size p ≡ p = omega arith in z) in
      ap (λ m. take m (overwrite p buf cells))
        (let z : max size (p + n) ≡ p + n + e = omega arith in z)
      ∙ take-overwrite_to p e buf cells room
      ∙ ap₂ (λ xs ys. xs ++ (buf ++ ys)) (sym before) (sym (drop-take (p + n) size cells))

  -- A write past the end of the data: what was in the cells between stays.
  pub beyond_lem :
      size ≤ p
      → take (max size (p + length buf)) (overwrite p buf cells)
        ≡ take size cells ++ (take (p - size) (drop size cells) ++ buf)
  beyond_lem h =
      let n = length buf in
      let none_left : take 0 (drop (p + n) cells) ≡ [] = refl in
      ap (λ m. take m (overwrite p buf cells))
        (let z : max size (p + n) ≡ p + n + 0 = omega arith in z)
      ∙ take-overwrite_to p 0 buf cells room
      ∙ ap₂ (λ xs ys. xs ++ ys)
          (ap (λ m. take m cells) (let z : p ≡ size + (p - size) = omega arith in z)
            ∙ take-add size (p - size) cells)
          (append-nil buf)
      ∙ append_assoc (take size cells) (take (p - size) (drop size cells)) buf
