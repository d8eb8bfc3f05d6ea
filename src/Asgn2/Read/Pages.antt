-- ===== src/Asgn2/Read/Pages.antt =====
-- `asgn2_read`: the page that holds what is asked for, and the pages after it.
use petulant_wookie.Base.{
  ℕ, ◌+◌, ◌-◌, ◌≤◌, ◌<◌, ◌^◌, ◌≡◌, refl, ◌∙◌, ap, ap₂, sym, List, [], ◌∷◌, ◌++◌, append-nil,
  append_assoc, length, AllLength, take, drop, min, arith, some, Bool, true, false, sub_size,
  sub_size-eq, min_int, min_int-eq-min, leb_ℤ, ◌==◌, eq→==, ne→==, if◌then◌else◌, pos,
}
use petulant_wookie.Kernel.{Kernel, IsKernel, Progresses, Run, done}
use petulant_wookie.Asgn1.Device.{Page}
use petulant_wookie.Asgn2.Read.{
  Reading, copy_page, search_null, read_page, free_page, visit, read_pages,
}
use petulant_wookie.Asgn2.Read.Copy.{advance, copy_page_lem, copy_page_end}
use petulant_wookie.Asgn2.Read.Search.{before_null, has_null, search_null_lem, search_null_empty}

-- The locals when the page has been searched.
abbrev pub searched : Bool → Reading → Reading
searched found r = record r {
  begin_offset = r.head_offset;
  null_flag = if found then 1 else r.null_flag;
}

pub read_page_steps :
    (k : Kernel) (fuel : ℕ) (p : Page) (size n : ℕ) (found : Bool) (r : Reading) (x : Run Reading)
    → min_int r.actual_size (sub_size k.page_size r.head_offset) ≡ size
    → search_null k.page_size p r.head_offset size ≡ some (n, found)
    → copy_page k fuel p n (searched found r) ≡ x
    → read_page k fuel p r ≡ x
unfolding read_page
read_page_steps k fuel p size n found r x e f c = rw (e, read_page) (rw f c)

pub visit_steps :
    (k : Kernel) (fuel : ℕ) (p : Page) (r r' : Reading)
    → read_page k fuel p r ≡ done r'
    → visit k fuel (pos 0) p r ≡ done (free_page p r')
unfolding visit
visit_steps k fuel p r r' e =
    let here : leb_ℤ (pos 0) (pos r.curr_page_no) ≡ true = ground arith in
    rw (here, visit) (rw e refl)

pub keep_page :
    (p : Page) (r : Reading)
    → 0 < r.begin_offset
    → free_page p r ≡ record r { kept = r.kept ++ (p ∷ []) }
unfolding free_page
keep_page p r h = rw (ne→== r.begin_offset 0 (omega arith)) refl

pub read_pages_stop :
    (k : Kernel) (fuel : ℕ) (p : Page) (ps : List Page) (r r' : Reading)
    → visit k fuel (pos 0) p r ≡ done r'
    → r'.null_flag ≡ 1
    → read_pages k fuel (pos 0) (p ∷ ps) r ≡ done (record r' { kept = r'.kept ++ ps })
unfolding read_pages
read_pages_stop k fuel p ps r r' e f = rw (e, read_pages) (rw (eq→== r'.null_flag 1 f) refl)

pub read_pages_more :
    (k : Kernel) (fuel : ℕ) (p : Page) (ps : List Page) (r r' : Reading)
    → visit k fuel (pos 0) p r ≡ done r'
    → r'.null_flag ≡ 0
    → read_pages k fuel (pos 0) (p ∷ ps) r ≡ read_pages k fuel (pos 0) ps r'
unfolding read_pages
read_pages_more k fuel p ps r r' e f =
    let on : (r'.null_flag == 1) ≡ false = ne→== r'.null_flag 1 (omega arith) in
    rw (e, read_pages) (rw on refl)

-- The bytes of the page that are asked for.
abbrev pub asked : ℕ → Page → Reading → List ℕ
asked page_size p r = take (min r.actual_size (page_size - r.head_offset)) (drop r.head_offset p)

-- The bytes to give end inside the page, and no sum goes out of range.
pub record InPage (page_size : ℕ) (p : Page) (r : Reading) : Type 0 where
  pub inside : r.head_offset + length (before_null (asked page_size p r)) < page_size
  pub few : r.actual_size < 2 ^ 31
  pub small : page_size < 2 ^ 31
  pub whole : length p ≡ page_size
  pub room : r.size_read + r.actual_size < 2 ^ 32

-- How much of the page is looked at.
pub size_asked :
    (page_size : ℕ) (r : Reading)
    → r.head_offset ≤ page_size
    → r.actual_size < 2 ^ 31
    → page_size < 2 ^ 31
    → min_int r.actual_size (sub_size page_size r.head_offset)
      ≡ min r.actual_size (page_size - r.head_offset)
size_asked page_size r h few small =
    let rest : sub_size page_size r.head_offset ≡ page_size - r.head_offset =
      sub_size-eq page_size r.head_offset h (omega (arith, small)) in
    ap (min_int r.actual_size) rest
    ∙ min_int-eq-min r.actual_size (page_size - r.head_offset) few (omega (arith, small))

pub read_page_lem :
    (k : Kernel) (fuel : ℕ) (p : Page) (r : Reading)
    → IsKernel k
    → Progresses k
    → k.page_size ≤ fuel
    → InPage k.page_size p r
    → (c : ℕ) × (read_page k fuel p r
        ≡ done (
            advance p
              (length (before_null (asked k.page_size p r)))
              c
              (searched (has_null (asked k.page_size p r)) r)))
read_page_lem k fuel p r ik pr enough i =
    let off = r.head_offset in
    let bytes = asked k.page_size p r in
    let size = min r.actual_size (k.page_size - off) in
    let (found, few, _) =
      search_null_lem k.page_size p off size (omega (arith, i.inside, i.whole)) i.whole i.small in
    let n = length (before_null bytes) in
    let (c, e) =
      copy_page_lem k fuel p n (searched (has_null bytes) r) ik pr (omega (arith, i.inside))
        (record {
          asked = omega (arith, few);
          small = omega (arith, i.few);
          room = omega (arith, few, i.room);
          at = refl;
          inside = i.inside;
          page_small = i.small;
          whole = i.whole;
        }) in
    (
      c,
      read_page_steps k fuel p size n (has_null bytes) r _
          (size_asked k.page_size r (omega (arith, i.inside)) i.few i.small) found e,
    )

-- Nothing is left to read, in the middle of a page.
pub record IsRead (page_size : ℕ) (r : Reading) : Type 0 where
  pub done_all : r.actual_size ≡ 0
  pub at : r.begin_offset ≡ r.head_offset
  pub middle : 0 < r.head_offset
  pub inside : r.head_offset < page_size
  pub small : page_size < 2 ^ 31
  pub no_null : r.null_flag ≡ 0

visit_read :
    (k : Kernel) (fuel : ℕ) (p : Page) (r : Reading)
    → IsRead k.page_size r
    → length p ≡ k.page_size
    → visit k fuel (pos 0) p r ≡ done (record r { kept = r.kept ++ (p ∷ []) })
visit_read k fuel p r i whole =
    let off = r.head_offset in
    let rest : sub_size k.page_size off ≡ k.page_size - off =
      sub_size-eq k.page_size off (omega (arith, i.inside)) (omega (arith, i.small)) in
    let size : min_int r.actual_size (sub_size k.page_size off) ≡ 0 =
      ap₂ min_int i.done_all rest
      ∙ min_int-eq-min 0 (k.page_size - off) (omega arith) (omega (arith, i.small))
      ∙ (let m : min 0 (k.page_size - off) ≡ 0 = omega arith in m) in
    let found = search_null_empty k.page_size p off (omega (arith, i.inside, whole)) in
    let same : searched false r ≡ r = ap (λ b. record r { begin_offset = b }) (sym i.at) in
    visit_steps k fuel p r r (
      read_page_steps k fuel p 0 0 false r (done r) size found
        (copy_page_end k fuel p (searched false r) ∙ ap done same))
    ∙ ap done (keep_page p r (omega (arith, i.at, i.middle)))

-- The pages after that stay.
pub read_pages_rest :
    (k : Kernel) (fuel : ℕ) (ps : List Page) (r : Reading)
    → IsRead k.page_size r
    → AllLength k.page_size ps
    → read_pages k fuel (pos 0) ps r ≡ done (record r { kept = r.kept ++ ps })
unfolding read_pages
read_pages_rest k fuel [] r i whole =
    ap (λ l. done (record r { kept = l })) (sym (append-nil r.kept))
read_pages_rest k fuel (p ∷ ps) r i whole =
    let r' = record r { kept = r.kept ++ (p ∷ []) } in
    read_pages_more k fuel p ps r r' (visit_read k fuel p r i whole.0) i.no_null
    ∙ read_pages_rest k fuel ps r'
        (record {
          done_all = i.done_all;
          at = i.at;
          middle = i.middle;
          inside = i.inside;
          small = i.small;
          no_null = i.no_null;
        })
        whole.1
    ∙ ap (λ l. done (record r { kept = l })) (append_assoc r.kept (p ∷ []) ps)
