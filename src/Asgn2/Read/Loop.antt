-- ===== src/Asgn2/Read/Loop.antt =====
-- `asgn2_read`: the page loop.
use petulant_wookie.Base.{
  ℕ, ◌+◌, ◌-◌, ◌≤◌, ◌<◌, ◌≡◌, refl, ◌∙◌, ap, List, [], ◌∷◌, ◌++◌, length, AllLength, arith, false,
  Bool-cases, inl, inr, pos, if◌then◌else◌,
}
use petulant_wookie.Kernel.{Kernel, IsKernel, Progresses, done}
use petulant_wookie.Asgn1.Device.{Page}
use petulant_wookie.Asgn2.Read.{Reading, read_pages}
use petulant_wookie.Asgn2.Read.Copy.{advance}
use petulant_wookie.Asgn2.Read.Search.{before_null, has_null}
use petulant_wookie.Asgn2.Read.Pages.{
  searched, InPage, asked, read_page_lem, read_pages_rest, visit_steps, keep_page, read_pages_stop,
  read_pages_more,
}

-- The page loop, when the bytes to give end inside the first page.
pub read_pages_lem :
    (k : Kernel) (fuel : ℕ) (p : Page) (ps : List Page) (r : Reading)
    → IsKernel k
    → Progresses k
    → k.page_size ≤ fuel
    → InPage k.page_size p r
    → r.null_flag ≡ 0
    → AllLength k.page_size ps
    → 0 < r.head_offset + length (before_null (asked k.page_size p r))
    → (has_null (asked k.page_size p r) ≡ false
        → length (before_null (asked k.page_size p r)) ≡ r.actual_size)
    → (c : ℕ) × (read_pages k fuel (pos 0) (p ∷ ps) r
        ≡ done (
            let r' =
              advance p
                (length (before_null (asked k.page_size p r)))
                c
                (searched (has_null (asked k.page_size p r)) r) in
            record r' { kept = (r.kept ++ (p ∷ [])) ++ ps }))
read_pages_lem k fuel p ps r ik pr enough i no_null whole moves all =
    let n = length (before_null (asked k.page_size p r)) in
    let (c, e) = read_page_lem k fuel p r ik pr enough i in
    let r1 = advance p n c (searched (has_null (asked k.page_size p r)) r) in
    let r2 = record r1 { kept = r.kept ++ (p ∷ []) } in
    let first = visit_steps k fuel p r r1 e ∙ ap done (keep_page p r1 moves) in
    elim (Bool-cases (has_null (asked k.page_size p r))) [
      | inl found ↦
          (c, read_pages_stop k fuel p ps r r2 first (ap (λ b. if b then 1 else r.null_flag) found))
      | inr missed ↦
          let rest : r.actual_size - n ≡ 0 = omega (arith, all missed) in
          let flag : r2.null_flag ≡ 0 = ap (λ b. if b then 1 else r.null_flag) missed ∙ no_null in
          (
            c,
            read_pages_more k fuel p ps r r2 first flag
                ∙ read_pages_rest k fuel ps r2
                    (record {
                      done_all = rest;
                      at = refl;
                      middle = moves;
                      inside = i.inside;
                      small = i.small;
                      no_null = flag;
                    })
                    whole,
          )
    ]
