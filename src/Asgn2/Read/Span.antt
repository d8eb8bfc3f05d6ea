-- ===== src/Asgn2/Read/Span.antt =====
-- `asgn2_read`: a read over several pages, which are freed, up to one that stays.
use petulant_wookie.Base.{
  ℕ, zero, suc, ◌+◌, ◌-◌, ◌≤◌, ◌<◌, ◌^◌, ◌≡◌, refl, ◌∙◌, ap, ap₂, sym, List, [], ◌∷◌, ◌++◌,
  append-nil, length, length-take, length-drop, length-append, take-min, take, drop, concat,
  take-drop-append, min, arith, some, false, pos, wrap_int, ◌+ℤ◌, Bool-cases, inl, inr,
}
use petulant_wookie.Kernel.{Kernel, IsKernel, Progresses, done}
use petulant_wookie.Asgn1.Device.{Page}
use petulant_wookie.Asgn2.Read.{Reading, free_page, visit}
use petulant_wookie.Asgn2.Read.Fill.{filled, copy_page_fill}
use petulant_wookie.Asgn2.Read.Search.{
  before_null, has_null, length-before_null, search_null_lem, before_null_all,
}
use petulant_wookie.Asgn2.Read.Split.{before_null-found, before_null-missed}
use petulant_wookie.Asgn2.Read.Pages.{searched, asked, size_asked, read_page_steps, visit_steps}

-- The locals when a page was read to its end and freed.
abbrev pub passed : Page → ℕ → ℕ → Reading → Reading
passed p n c r =
    let r' = filled p n c (searched false r) in
    record r' {
      head_index = wrap_int (r.head_index +ℤ pos 1);
      freed = r.freed + 1;
      curr_page_no = r.curr_page_no + 1;
      num_pages = r.num_pages - 1;
    }

-- All bytes of the page from the head on are asked for, and none of them is null.
pub record Passes (page_size : ℕ) (p : Page) (r : Reading) : Type 0 where
  pub begins : r.head_offset < page_size
  pub more : page_size - r.head_offset ≤ r.actual_size
  pub few : r.actual_size < 2 ^ 31
  pub small : page_size < 2 ^ 31
  pub whole : length p ≡ page_size
  pub room : r.size_read + r.actual_size < 2 ^ 32
  pub no_null : has_null (drop r.head_offset p) ≡ false

pub whole_page : (n : ℕ) (xs : List ℕ) → length xs ≤ n → take n xs ≡ xs
whole_page zero [] h = refl
whole_page (suc n) [] h = refl
whole_page zero (x ∷ xs) h = absurd (omega arith)
whole_page (suc n) (x ∷ xs) h = ap (λ l. x ∷ l) (whole_page n xs (omega arith))

pub visit-passed :
    (k : Kernel) (fuel : ℕ) (p : Page) (r : Reading)
    → IsKernel k
    → Progresses k
    → k.page_size ≤ fuel
    → Passes k.page_size p r
    → (c : ℕ) × (visit k fuel (pos 0) p r ≡ done (passed p (k.page_size - r.head_offset) c r))
unfolding free_page
visit-passed k fuel p r ik pr enough i =
    let off = r.head_offset in
    let n = k.page_size - off in
    let left : length (drop off p) ≡ n = omega (arith, length-drop off p, i.whole) in
    let all : take n (drop off p) ≡ drop off p = whole_page n (drop off p) (omega (arith, left)) in
    let least : min r.actual_size n ≡ n = omega (arith, i.more) in
    let (found, _, _) =
      search_null_lem k.page_size p off n (omega (arith, i.begins, i.whole)) i.whole i.small in
    let bytes : before_null (take n (drop off p)) ≡ drop off p =
      ap before_null all ∙ before_null_all (drop off p) i.no_null in
    let given : length (before_null (take n (drop off p))) ≡ n = ap length bytes ∙ left in
    let missed : has_null (take n (drop off p)) ≡ false = ap has_null all ∙ i.no_null in
    let (c, e) =
      copy_page_fill k fuel p n (searched false r) ik pr (omega arith) (omega (arith, i.begins))
        (record {
          asked = omega (arith, i.more);
          small = omega (arith, i.few);
          room = omega (arith, i.more, i.room);
          at = refl;
          ends = omega (arith, i.begins);
          page_small = i.small;
          whole = i.whole;
        }) in
    (
      c,
      visit_steps k fuel p r (filled p n c (searched false r)) (
          read_page_steps k fuel p n n false r _
            (size_asked k.page_size r (omega (arith, i.begins)) i.few i.small ∙ least)
            (found ∙ ap₂ (λ m b. some (m, b)) given missed) e),
    )

-- The bytes that are asked for of the pages.
abbrev pub wanted : List Page → Reading → List ℕ
wanted ps r = take r.actual_size (drop r.head_offset (concat ps))

wanted_parts :
    (page_size : ℕ) (p : Page) (ps : List Page) (r : Reading)
    → r.head_offset < page_size
    → length p ≡ page_size
    → wanted (p ∷ ps) r
      ≡ asked page_size p r ++ take (r.actual_size - (page_size - r.head_offset)) (concat ps)
wanted_parts page_size p ps r h whole =
    let off = r.head_offset in
    let rest = take (r.actual_size - (page_size - off)) (concat ps) in
    let left : length (drop off p) ≡ page_size - off = omega (arith, length-drop off p, whole) in
    take-drop-append r.actual_size off (page_size - off) p (concat ps) (omega (arith, h, whole))
    ∙ ap (λ l. l ++ rest)
        (sym (take-min r.actual_size (drop off p))
          ∙ ap (λ n. take (min r.actual_size n) (drop off p)) left)

length-asked :
    (page_size : ℕ) (p : Page) (r : Reading)
    → length p ≡ page_size
    → length (asked page_size p r) ≡ min r.actual_size (page_size - r.head_offset)
length-asked page_size p r whole = omega (
  arith,
  length-take (min r.actual_size (page_size - r.head_offset)) (drop r.head_offset p),
  length-drop r.head_offset p,
  whole,
)

-- The bytes to give end inside the first page: that page has them.
pub in_first :
    (page_size : ℕ) (p : Page) (ps : List Page) (r : Reading)
    → length p ≡ page_size
    → r.head_offset + length (before_null (wanted (p ∷ ps) r)) < page_size
    → (before_null (asked page_size p r) ≡ before_null (wanted (p ∷ ps) r))
      × (has_null (asked page_size p r) ≡ has_null (wanted (p ∷ ps) r))
      × (has_null (asked page_size p r) ≡ false
          → length (before_null (asked page_size p r)) ≡ r.actual_size)
in_first page_size p ps r whole inside =
    let xs = asked page_size p r in
    let ys = take (r.actual_size - (page_size - r.head_offset)) (concat ps) in
    let parts = wanted_parts page_size p ps r (omega (arith, inside)) whole in
    let size = length-asked page_size p r whole in
    elim (Bool-cases (has_null xs)) [
      | inl found ↦
          let (same, also, _) = before_null-found xs ys found in
          (
            sym (ap before_null parts ∙ same),
            found ∙ sym (ap has_null parts ∙ also),
            λ e. absurd (ground arith),
          )
      | inr missed ↦
          let (same, later) = before_null-missed xs ys missed in
          let long =
            ap (λ l. length (before_null l)) parts
            ∙ ap length same
            ∙ length-append xs (before_null ys) in
          let all_in : r.actual_size < page_size - r.head_offset =
            omega (arith, inside, long, size) in
          let no_more : ys ≡ [] =
            ap (λ n. take n (concat ps))
              (let z : r.actual_size - (page_size - r.head_offset) ≡ 0 = omega (arith, all_in) in
                z) in
          let just : wanted (p ∷ ps) r ≡ xs = parts ∙ ap (λ l. xs ++ l) no_more ∙ append-nil xs in
          (
            ap before_null (sym just),
            ap has_null (sym just),
            λ e.
                ap length (before_null_all xs e)
                ∙ (let z : length xs ≡ r.actual_size = omega (arith, size, all_in) in z),
          )
    ]

-- They go on past it: the page has no null terminator from the head on.
pub past_first :
    (page_size c : ℕ) (p : Page) (ps : List Page) (r : Reading)
    → length p ≡ page_size
    → r.head_offset < page_size
    → page_size < r.head_offset + length (before_null (wanted (p ∷ ps) r))
    → let n = page_size - r.head_offset in
      let rest = wanted ps (passed p n c r) in
      (n < r.actual_size)
      × (has_null (drop r.head_offset p) ≡ false)
      × (before_null (wanted (p ∷ ps) r) ≡ drop r.head_offset p ++ before_null rest)
      × (has_null (wanted (p ∷ ps) r) ≡ has_null rest)
past_first page_size c p ps r whole begins past =
    let n = page_size - r.head_offset in
    let xs = asked page_size p r in
    let ys = take (r.actual_size - n) (concat ps) in
    let parts = wanted_parts page_size p ps r begins whole in
    let size = length-asked page_size p r whole in
    elim (Bool-cases (has_null xs)) [
      | inl found ↦
          let (same, _, shorter) = before_null-found xs ys found in
          let short = ap (λ l. length (before_null l)) parts ∙ ap length same in
          absurd (omega (arith, short, shorter, size, past))
      | inr missed ↦
          let (same, later) = before_null-missed xs ys missed in
          let long =
            ap (λ l. length (before_null l)) parts
            ∙ ap length same
            ∙ length-append xs (before_null ys) in
          let most = length-before_null ys in
          let rest = length-take (r.actual_size - n) (concat ps) in
          let more : n < r.actual_size = omega (arith, past, long, size, most, rest) in
          let all : xs ≡ drop r.head_offset p =
            whole_page (min r.actual_size n) (drop r.head_offset p)
              (omega (arith, length-drop r.head_offset p, whole, more)) in
          (
            more,
            ap has_null (sym all) ∙ missed,
            ap before_null parts ∙ same ∙ ap (λ l. l ++ before_null ys) all,
            ap has_null parts ∙ later,
          )
    ]
