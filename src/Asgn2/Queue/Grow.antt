-- ===== src/Asgn2/Queue/Grow.antt =====
-- `bottom_half`: with memory for them, the allocation loop links the pages that are missing.
use petulant_wookie.Base.{
  ℕ, zero, suc, ◌+◌, ◌*◌, ◌≤◌, ◌<◌, ◌^◌, ◌≡◌, refl, ◌∙◌, ap, ap₂, sym, subst, List, [], ◌∷◌, ◌++◌,
  append-nil, append_assoc, length, AllLength, arith, dec_lt,
}
use petulant_wookie.Kernel.{Kernel, IsKernel, Supplies, Alloc, page, no_node, no_page, Fills, Fails}
use petulant_wookie.Asgn1.Device.{Page}
use petulant_wookie.Asgn2.Device.{State}
use petulant_wookie.Asgn2.Queue.{Growth, grown, link, grow}

-- The state with the pages linked at the end.
abbrev pub with_pages : List Page → State → State
with_pages new s = record s { mem_list = s.mem_list ++ new; num_pages = s.num_pages + length new }

-- The loop ended with pages for `target` bytes.
abbrev pub Grew : Kernel → ℕ → State → Growth → Type 0
Grew k target s g =
    (new : List Page) × AllLength k.page_size new
    × (g ≡ grown (with_pages new s))
    × (target ≤ (s.num_pages + length new) * k.page_size)
    × ((s.num_pages + length new) * k.page_size < 2 ^ 32)

with_pages-nil : (s : State) → with_pages [] s ≡ s
with_pages-nil s =
    let e : s.num_pages + 0 ≡ s.num_pages = omega arith in
    ap₂ (λ l n. record s { mem_list = l; num_pages = n }) (append-nil s.mem_list) e

with_pages-link :
    (p : Page) (new : List Page) (s : State) → with_pages new (link p s) ≡ with_pages (p ∷ new) s
with_pages-link p new s =
    let e : s.num_pages + 1 + length new ≡ s.num_pages + suc (length new) = omega arith in
    ap₂ (λ l n. record s { mem_list = l; num_pages = n }) (append_assoc s.mem_list (p ∷ []) new) e

supplied : (a : Alloc) → ¬ Fails a → (p : Page) × (a ≡ page p)
supplied no_node h = absurd (h tt)
supplied no_page h = absurd (h tt)
supplied (page p) h = (p, refl)

module _ (k : Kernel) where
  pub grow_done :
      (fuel i target : ℕ) (s : State)
      → s.num_pages * k.page_size < 2 ^ 32
      → target ≤ s.num_pages * k.page_size
      → grow k fuel i target s ≡ grown s
  unfolding grow
  grow_done zero i target s fits h = ground arith
  grow_done (suc fuel) i target s fits h = ground arith

  grow_more :
      (fuel i target : ℕ) (s : State) (p : Page)
      → s.num_pages * k.page_size < 2 ^ 32
      → s.num_pages * k.page_size < target
      → k.alloc i ≡ page p
      → grow k (suc fuel) i target s ≡ grow k fuel (suc i) target (link p s)
  unfolding grow
  grow_more fuel i target s p fits h e = ground arith

  grow_stop :
      (fuel i target : ℕ) (s : State)
      → s.num_pages * k.page_size < 2 ^ 32
      → target ≤ s.num_pages * k.page_size
      → Grew k target s (grow k fuel i target s)
  grow_stop fuel i target s fits h = (
    [],
    tt,
    grow_done fuel i target s fits h ∙ ap grown (sym (with_pages-nil s)),
    omega arith,
    omega arith,
  )

  pub grow_lem :
      (fuel i target : ℕ) (s : State)
      → IsKernel k
      → Supplies k
      → target ≤ fuel + s.num_pages * k.page_size
      → target + k.page_size < 2 ^ 32
      → s.num_pages * k.page_size < 2 ^ 32
      → Grew k target s (grow k fuel i target s)
  grow_lem zero i target s ik sup enough small fits = grow_stop 0 i target s fits (omega arith)
  grow_lem (suc fuel) i target s ik sup enough small fits =
      elim (dec_lt (s.num_pages * k.page_size) target) [
        | no h ↦ grow_stop (suc fuel) i target s fits (omega arith)
        | yes h ↦
            let (p, e) = supplied (k.alloc i) (sup i) in
            let size : length p ≡ k.page_size = subst (Fills k.page_size) e (ik.fills i) in
            let pos_page = ik.page_pos in
            let (new, whole, result, room, fits') =
              grow_lem fuel (suc i) target (link p s) ik sup (omega arith) small (omega arith) in
            (
              p ∷ new,
              (size, whole),
              grow_more fuel i target s p fits h e ∙ result ∙ ap grown (with_pages-link p new s),
              omega arith,
              omega arith,
            )
      ]
