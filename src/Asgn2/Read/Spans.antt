-- ===== src/Asgn2/Read/Spans.antt =====
-- `asgn2_read`: the page loop over several pages.
use petulant_wookie.Base.{
  ℕ, zero, suc, ◌+◌, ◌-◌, ◌*◌, ◌≤◌, ◌<◌, ◌^◌, ◌≡◌, ◌∙◌, ap, ap₂, sym, List, [], ◌∷◌, ◌++◌,
  append_assoc, take-nil, drop-nil, length, length-drop, length-append, AllLength, take, drop,
  arith, min, false, if◌then◌else◌, pos, wrap_int, wrap_int_inc, ◌+ℤ◌,
}
use petulant_wookie.Kernel.{Kernel, IsKernel, Progresses, done}
use petulant_wookie.Asgn1.Device.{Page}
use petulant_wookie.Asgn2.Read.{Reading, read_pages}
use petulant_wookie.Asgn2.Read.Copy.{advance}
use petulant_wookie.Asgn2.Read.Search.{before_null, has_null, search_null_lem}
use petulant_wookie.Asgn2.Read.Pages.{searched, asked, read_pages_more}
use petulant_wookie.Asgn2.Read.Loop.{read_pages_lem}
use petulant_wookie.Asgn2.Read.Span.{passed, visit-passed, wanted, in_first, past_first, whole_page}

-- What is asked for lies in the pages, and no sum goes out of range.
pub record InPages (page_size : ℕ) (ps : List Page) (r : Reading) : Type 0 where
  pub begins : r.head_offset < page_size
  pub available : r.head_offset + r.actual_size ≤ length ps * page_size
  pub few : r.actual_size < 2 ^ 31
  pub small : page_size < 2 ^ 31
  pub whole : AllLength page_size ps
  pub room : r.size_read + r.actual_size < 2 ^ 32
  pub no_null : r.null_flag ≡ 0
  pub head : r.head_index ≡ pos r.freed
  pub count : r.freed + length ps < 2 ^ 31

-- The locals after the loop: `pages` pages are freed, and the head is in the next one.
pub record Spanned (page_size pages offset : ℕ) (ps : List Page) (r r' : Reading) : Type 0 where
  pub below : pages < length ps
  pub freed : r'.freed ≡ r.freed + pages
  pub head_index : r'.head_index ≡ pos (r.freed + pages)
  pub num_pages : r'.num_pages ≡ r.num_pages - pages
  pub head_offset : r'.head_offset ≡ offset
  pub kept : r'.kept ≡ r.kept ++ drop pages ps
  pub buf : r'.buf ≡ r.buf ++ before_null (wanted ps r)
  pub size_read : r'.size_read ≡ r.size_read + length (before_null (wanted ps r))
  pub null_flag : r'.null_flag ≡ (if has_null (wanted ps r) then 1 else 0)

last_page :
    (k : Kernel) (fuel offset : ℕ) (p : Page) (ps : List Page) (r : Reading)
    → IsKernel k
    → Progresses k
    → k.page_size ≤ fuel
    → InPages k.page_size (p ∷ ps) r
    → 0 < offset
    → offset < k.page_size
    → r.head_offset + length (before_null (wanted (p ∷ ps) r)) ≡ offset
    → (r' : Reading) × (read_pages k fuel (pos 0) (p ∷ ps) r ≡ done r')
      × Spanned k.page_size 0 offset (p ∷ ps) r r'
last_page k fuel offset p ps r ik pr enough i moves inside e =
    let bytes = asked k.page_size p r in
    let (same, also, all) = in_first k.page_size p ps r i.whole.0 (omega (arith, e, inside)) in
    let size = ap length same in
    let (c, run) =
      read_pages_lem k fuel p ps r ik pr enough
        (record {
          inside = omega (arith, size, e, inside);
          few = i.few;
          small = i.small;
          whole = i.whole.0;
          room = i.room;
        })
        i.no_null i.whole.1 (omega (arith, size, e, moves)) all in
    let n = length (before_null bytes) in
    let (_, _, piece) =
      search_null_lem k.page_size p r.head_offset (min r.actual_size (k.page_size - r.head_offset))
        (omega (arith, i.begins, i.whole.0)) i.whole.0 i.small in
    let r1 = advance p n c (searched (has_null bytes) r) in
    (
      record r1 { kept = (r.kept ++ (p ∷ [])) ++ ps },
      run,
      record {
        below = omega arith;
        freed = omega arith;
        head_index = i.head ∙ ap pos (let z : r.freed ≡ r.freed + 0 = omega arith in z);
        num_pages = omega arith;
        head_offset = omega (arith, size, e);
        kept = append_assoc r.kept (p ∷ []) ps;
        buf = ap (λ l. r.buf ++ l) (piece ∙ same);
        size_read = omega (arith, size);
        null_flag = ap₂ (λ b f. if b then 1 else f) also i.no_null;
      },
    )

-- The bytes to give go on after the first page, with `pages` more to free.
module _ (page_size pages offset c : ℕ) (p : Page) (ps : List Page) (r : Reading)
    (i : InPages page_size (p ∷ ps) r) (moves : 0 < offset)
    (e : r.head_offset + length (before_null (wanted (p ∷ ps) r))
      ≡ suc pages * page_size + offset) where
  abbrev r1 : Reading
  r1 = passed p (page_size - r.head_offset) c r

  past : page_size < r.head_offset + length (before_null (wanted (p ∷ ps) r))
  past = omega (arith, e, moves)

  parts :
      (page_size - r.head_offset < r.actual_size)
      × (has_null (drop r.head_offset p) ≡ false)
      × (before_null (wanted (p ∷ ps) r) ≡ drop r.head_offset p ++ before_null (wanted ps r1))
      × (has_null (wanted (p ∷ ps) r) ≡ has_null (wanted ps r1))
  parts = past_first page_size c p ps r i.whole.0 i.begins past

  InPages-passed : InPages page_size ps r1
  InPages-passed = record {
    begins = omega (arith, i.begins);
    available = omega (arith, i.available, i.begins, parts.0);
    few = omega (arith, i.few);
    small = i.small;
    whole = i.whole.1;
    room = omega (arith, i.room, parts.0);
    no_null = i.no_null;
    head = ap (λ h. wrap_int (h +ℤ pos 1)) i.head ∙ wrap_int_inc r.freed (omega (arith, i.count));
    count = omega (arith, i.count);
  }

  length-parts :
      length (before_null (wanted (p ∷ ps) r))
      ≡ (page_size - r.head_offset) + length (before_null (wanted ps r1))
  length-parts = omega (
    arith,
    ap length parts.2,
    length-append (drop r.head_offset p) (before_null (wanted ps r1)),
    length-drop r.head_offset p,
    i.whole.0,
  )

  place : r1.head_offset + length (before_null (wanted ps r1)) ≡ pages * page_size + offset
  place = omega (arith, e, length-parts, i.begins)

  whole_rest : take (page_size - r.head_offset) (drop r.head_offset p) ≡ drop r.head_offset p
  whole_rest =
      whole_page (page_size - r.head_offset) (drop r.head_offset p)
        (omega (arith, length-drop r.head_offset p, i.whole.0))

  Spanned-passed :
      (r' : Reading)
      → Spanned page_size pages offset ps r1 r'
      → Spanned page_size (suc pages) offset (p ∷ ps) r r'
  Spanned-passed r' s = record {
    below = omega (arith, s.below);
    freed = omega (arith, s.freed);
    head_index =
        s.head_index
        ∙ ap pos (let z : r.freed + 1 + pages ≡ r.freed + suc pages = omega arith in z);
    num_pages = omega (arith, s.num_pages);
    head_offset = s.head_offset;
    kept = s.kept;
    buf =
        s.buf
        ∙ append_assoc r.buf (take (page_size - r.head_offset) (drop r.head_offset p))
            (before_null (wanted ps r1))
        ∙ ap (λ l. r.buf ++ (l ++ before_null (wanted ps r1))) whole_rest
        ∙ ap (λ l. r.buf ++ l) (sym parts.2);
    size_read = omega (arith, s.size_read, length-parts);
    null_flag = s.null_flag ∙ ap (λ b. if b then 1 else 0) (sym parts.3);
  }

-- The loop over pages of which `pages` are read to their end, and then some of the next one, ends.
pub read_pages-Spanned :
    (k : Kernel) (fuel pages offset : ℕ) (ps : List Page) (r : Reading)
    → IsKernel k
    → Progresses k
    → k.page_size ≤ fuel
    → InPages k.page_size ps r
    → 0 < offset
    → offset < k.page_size
    → r.head_offset + length (before_null (wanted ps r)) ≡ pages * k.page_size + offset
    → (r' : Reading) × (read_pages k fuel (pos 0) ps r ≡ done r')
      × Spanned k.page_size pages offset ps r r'
unfolding before_null
read_pages-Spanned k fuel pages offset [] r ik pr enough i moves inside e =
    let nothing : wanted [] r ≡ [] =
      ap (take r.actual_size) (drop-nil r.head_offset) ∙ take-nil r.actual_size in
    let none_given : length (before_null (wanted [] r)) ≡ 0 =
      ap (λ l. length (before_null l)) nothing in
    absurd (omega (arith, e, none_given, moves, i.available))
read_pages-Spanned k fuel zero offset (p ∷ ps) r ik pr enough i moves inside e =
    last_page k fuel offset p ps r ik pr enough i moves inside (omega (arith, e))
read_pages-Spanned k fuel (suc pages) offset (p ∷ ps) r ik pr enough i moves inside e =
    let (more, no_null, _, _) = parts k.page_size pages offset 0 p ps r i moves e in
    let (c, run) = visit-passed k fuel p r ik pr enough (record {
      begins = i.begins;
      more = omega (arith, more);
      few = i.few;
      small = i.small;
      whole = i.whole.0;
      room = i.room;
      no_null = no_null;
    }) in
    let r2 = r1 k.page_size pages offset c p ps r i moves e in
    let (r', run', s) =
      read_pages-Spanned k fuel pages offset ps r2 ik pr enough
        (InPages-passed k.page_size pages offset c p ps r i moves e) moves inside
        (place k.page_size pages offset c p ps r i moves e) in
    (
      r',
      read_pages_more k fuel p ps r r2 run i.no_null ∙ run',
      Spanned-passed k.page_size pages offset c p ps r i moves e r' s,
    )
