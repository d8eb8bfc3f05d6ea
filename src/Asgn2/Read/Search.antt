-- ===== src/Asgn2/Read/Search.antt =====
-- `asgn2_read`: the search for a null terminator in one page.
use petulant_wookie.Base.{
  ℕ, ◌+◌, ◌≤◌, ◌<◌, ◌^◌, ◌≡◌, refl, ◌∙◌, ap, ap₂, sym, List, [], ◌∷◌, length, take, drop,
  length-take, length-drop, take-take, arith, none, some, Bool, true, false, Bool-cases, ◌⊎◌, inl,
  inr, sub_size, add_size, le→leb, ◌==◌, if◌then◌else◌,
}
use petulant_wookie.Asgn1.Device.{Page}
use petulant_wookie.Asgn2.Read.{find_null, search_null}

-- The bytes before the first null terminator, or all of them.
unfoldable pub before_null : List ℕ → List ℕ
before_null [] = []
before_null (b ∷ bs) = let rest = b ∷ before_null bs in if b == 0 then [] else rest

-- Whether there is one.
unfoldable pub has_null : List ℕ → Bool
has_null [] = false
has_null (b ∷ bs) = let rest = has_null bs in if b == 0 then true else rest

abbrev Searched : List ℕ → Type 0
Searched xs =
    ((find_null xs ≡ some (length (before_null xs))) × (has_null xs ≡ true))
    ⊎ ((find_null xs ≡ none) × (has_null xs ≡ false) × (before_null xs ≡ xs))

found_first : (b : ℕ) (bs : List ℕ) → (b == 0) ≡ true → Searched (b ∷ bs)
unfolding find_null before_null has_null
found_first b bs e = inl (rw e refl, rw e refl)

found_later :
    (b : ℕ) (bs : List ℕ)
    → (b == 0) ≡ false
    → find_null bs ≡ some (length (before_null bs))
    → has_null bs ≡ true
    → Searched (b ∷ bs)
unfolding find_null before_null has_null
found_later b bs e f h = inl (rw (e, find_null) (rw f refl), rw e h)

not_found :
    (b : ℕ) (bs : List ℕ)
    → (b == 0) ≡ false
    → find_null bs ≡ none
    → has_null bs ≡ false
    → before_null bs ≡ bs
    → Searched (b ∷ bs)
unfolding find_null before_null has_null
not_found b bs e f h t = inr (rw (e, find_null) (rw f refl), rw e h, rw e (ap (λ x. b ∷ x) t))

search : (xs : List ℕ) → Searched xs
unfolding find_null before_null has_null
search [] = inr (refl, refl, refl)
search (b ∷ bs) = elim (Bool-cases (b == 0)) [
  | inl e ↦ found_first b bs e
  | inr e ↦ elim (search bs) [
    | inl (f, h) ↦ found_later b bs e f h
    | inr (f, h, t) ↦ not_found b bs e f h t
  ]
]

pub length-before_null : (xs : List ℕ) → length (before_null xs) ≤ length xs
unfolding before_null
length-before_null [] = omega arith
length-before_null (b ∷ bs) = ground (arith, length-before_null bs)

take-before_null : (xs : List ℕ) → before_null xs ≡ take (length (before_null xs)) xs
unfolding before_null
take-before_null [] = refl
take-before_null (b ∷ bs) = elim (Bool-cases (b == 0)) [
  | inl e ↦ rw e refl
  | inr e ↦ rw e (ap (λ x. b ∷ x) (take-before_null bs))
]

search_null_found :
    (page_size n : ℕ) (p : Page) (off size : ℕ)
    → find_null (take size (drop off p)) ≡ some n
    → off + n ≤ page_size
    → page_size < 2 ^ 31
    → search_null page_size p off size ≡ some (n, true)
unfolding search_null
search_null_found page_size n p off size e inside small =
    let back : sub_size (sub_size page_size off) (sub_size page_size (add_size n off)) ≡ n =
      omega arith in
    rw (e, search_null) (ap (λ x. some (x, true)) back)

search_null_missed :
    (page_size : ℕ) (p : Page) (off size : ℕ)
    → find_null (take size (drop off p)) ≡ none
    → off + size ≤ length p
    → search_null page_size p off size ≡ some (size, false)
unfolding search_null
search_null_missed page_size p off size e h =
    rw (e, search_null) (rw (le→leb (off + size) (length p) h) refl)

-- What the search yields when the bytes that it looks at lie in the page.
pub search_null_lem :
    (page_size : ℕ) (p : Page) (off size : ℕ)
    → off + size ≤ length p
    → length p ≡ page_size
    → page_size < 2 ^ 31
    → let bytes = take size (drop off p) in
      (search_null page_size p off size ≡ some (length (before_null bytes), has_null bytes))
      × (length (before_null bytes) ≤ size)
      × (take (length (before_null bytes)) (drop off p) ≡ before_null bytes)
search_null_lem page_size p off size h whole small =
    let bytes = take size (drop off p) in
    let few : length (before_null bytes) ≤ size =
      omega (arith, length-before_null bytes, length-take size (drop off p)) in
    let piece : take (length (before_null bytes)) (drop off p) ≡ before_null bytes = sym (
      take-before_null bytes
      ∙ take-take (length (before_null bytes)) size (drop off p)
      ∙ ap (λ c. take c (drop off p)) (omega arith)) in
    let full : length bytes ≡ size =
      omega (arith, length-take size (drop off p), length-drop off p) in
    elim (search bytes) [
      | inl (f, has) ↦ (
        search_null_found page_size (length (before_null bytes)) p off size f (omega arith) small
            ∙ ap (λ b. some (length (before_null bytes), b)) (sym has),
        few,
        piece,
      )
      | inr (f, has, all) ↦ (
        search_null_missed page_size p off size f h
            ∙ ap₂ (λ c b. some (c, b)) (sym (ap length all ∙ full)) (sym has),
        few,
        piece,
      )
    ]

-- A search over nothing finds nothing.
pub search_null_empty :
    (page_size : ℕ) (p : Page) (off : ℕ)
    → off ≤ length p
    → search_null page_size p off 0 ≡ some (0, false)
unfolding find_null
search_null_empty page_size p off h = search_null_missed page_size p off 0 refl (omega arith)

pub before_null_all : (xs : List ℕ) → has_null xs ≡ false → before_null xs ≡ xs
before_null_all xs h = elim (search xs) [
  | inl (f, has) ↦ absurd (ground arith)
  | inr (f, has, all) ↦ all
]
