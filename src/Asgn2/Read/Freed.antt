-- ===== src/Asgn2/Read/Freed.antt =====
-- What a read leaves of the list of pages, and of their numbers.
use native.Mathlib.Nat.{mul-le-mul_right}
use petulant_wookie.Base.{
  ℕ, zero, suc, ◌+◌, ◌-◌, ◌*◌, ◌≤◌, ◌<◌, ◌^◌, ◌≡◌, ◌∙◌, ap, sym, List, [], ◌∷◌, drop-append_ge,
  length, AllLength, drop, concat, arith, pos, wrap_int, ◌-ℤ◌, dec_lt,
}
use petulant_wookie.Asgn1.Device.{Page}

pub concat-drop :
    (page_size n : ℕ) (ps : List Page)
    → AllLength page_size ps
    → n ≤ length ps
    → concat (drop n ps) ≡ drop (n * page_size) (concat ps)
concat-drop page_size zero ps whole h =
    ap (λ i. drop i (concat ps)) (let z : 0 ≡ 0 * page_size = omega arith in z)
concat-drop page_size (suc n) [] whole h = absurd (omega arith)
concat-drop page_size (suc n) (p ∷ ps) whole h =
    concat-drop page_size n ps whole.1 (omega arith)
    ∙ ap (λ i. drop i (concat ps))
        (let z : n * page_size ≡ suc n * page_size - length p = omega (arith, whole.0) in z)
    ∙ sym (drop-append_ge (suc n * page_size) p (concat ps) (omega (arith, whole.0)))

pub AllLength-drop :
    (page_size n : ℕ) (ps : List Page) → AllLength page_size ps → AllLength page_size (drop n ps)
AllLength-drop page_size zero ps whole = whole
AllLength-drop page_size (suc n) [] whole = tt
AllLength-drop page_size (suc n) (p ∷ ps) whole = AllLength-drop page_size n ps whole.1

pub wrap_int_diff : (m n : ℕ) → n ≤ m → m < 2 ^ 31 → wrap_int (pos m -ℤ pos n) ≡ pos (m - n)
unfolding ◌-ℤ◌
wrap_int_diff m n h small = ground arith

pub minus_times : (m n p : ℕ) → n ≤ m → (m - n) * p + n * p ≡ m * p
minus_times m zero p h =
    let all : m - 0 ≡ m = omega arith in let times = ap (λ x. x * p) all in omega (arith, times)
minus_times (suc m) (suc n) p h =
    let less : suc m - suc n ≡ m - n = omega arith in
    let times = ap (λ x. x * p) less in omega (arith, times, minus_times m n p (omega arith))
minus_times zero (suc n) p h = absurd (omega arith)

pub pages_below :
    (pages offset t o page_size : ℕ)
    → pages * page_size + offset ≤ t * page_size + o
    → o < page_size
    → pages ≤ t
pages_below pages offset t o page_size h inside = elim (dec_lt t pages) [
  | yes above ↦
      let more : (t + 1) * page_size ≤ pages * page_size =
        mul-le-mul_right page_size (let z : t + 1 ≤ pages = omega arith in z) in
      absurd (omega (arith, more))
  | no below ↦ omega arith
]
