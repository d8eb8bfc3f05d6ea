-- ===== src/Asgn1/Write/Grow.antt =====
-- `asgn1_write`: the allocation loop links pages until they hold the request, or stops at the first
-- allocation that fails.
use petulant_wookie.Base.{
  ℕ, zero, suc, ◌+◌, ◌*◌, ◌≤◌, ◌<◌, ◌^◌, ◌≡◌, refl, ◌∙◌, sym, subst, ◌⊎◌, inl, inr, List, [], ◌∷◌,
  ◌++◌, append-nil, append_assoc, arith, length, AllLength, dec_lt,
}
use petulant_wookie.Kernel.{Kernel, IsKernel, Alloc, no_node, no_page, page, Fills, Fails}
use petulant_wookie.Asgn1.Device.{Device, Page}
use petulant_wookie.Asgn1.Write.{Growth, grown, out_of_memory, running, link, grow}

-- `d'` is `d` with new pages at the end of its list, and `leak` nodes that are in no list.
pub record Linked (page_size leak : ℕ) (d d' : Device) : Type 0 where
  pub new : List Page
  pub whole_new : AllLength page_size new
  pub list : d'.mem_list ≡ d.mem_list ++ new
  pub number : d'.num_pages ≡ d.num_pages + length new
  pub nodes : d'.live_nodes ≡ d.live_nodes + length new + leak
  pub pages : d'.live_pages ≡ d.live_pages + length new
  pub same_size : d'.data_size ≡ d.data_size
  pub same_procs : d'.nprocs ≡ d.nprocs
  pub same_max : d'.max_nprocs ≡ d.max_nprocs

-- What the loop may leave, started at `d` for `target` bytes: enough pages, with no sum out of
-- range; or fewer, after an allocation that failed.
abbrev pub Grew : Kernel → ℕ → Device → Growth → Type 0
Grew k target d (grown d') =
    Linked k.page_size 0 d d'
    × (target ≤ d'.num_pages * k.page_size)
    × (d'.num_pages * k.page_size < 2 ^ 32)
Grew k target d (out_of_memory d') =
    (leak : ℕ) × (leak ≤ 1)
    × Linked k.page_size leak d d'
    × (i : ℕ) × Fails (k.alloc i)
    × (d'.num_pages * k.page_size < 2 ^ 32)
Grew k target d running = ⊥

module _ (k : Kernel) where
  Linked-nil :
      (leak : ℕ) (d : Device) (n : ℕ)
      → n ≡ d.live_nodes + leak
      → Linked k.page_size leak d (record d { live_nodes = n })
  Linked-nil leak d n e = record {
    new = [];
    whole_new = tt;
    list = sym (append-nil d.mem_list);
    number = omega arith;
    nodes = omega arith;
    pages = omega arith;
    same_size = refl;
    same_procs = refl;
    same_max = refl;
  }

  Linked-cons :
      (d d' : Device) (leak : ℕ) (p : Page)
      → length p ≡ k.page_size
      → Linked k.page_size leak (link p d) d'
      → Linked k.page_size leak d d'
  Linked-cons d d' leak p e l = record {
    new = p ∷ l.new;
    whole_new = (e, l.whole_new);
    list = l.list ∙ append_assoc d.mem_list (p ∷ []) l.new;
    number = omega (arith, l.number);
    nodes = omega (arith, l.nodes);
    pages = omega (arith, l.pages);
    same_size = l.same_size;
    same_procs = l.same_procs;
    same_max = l.same_max;
  }

  Grew-link :
      (target : ℕ) (d : Device) (p : Page) (g : Growth)
      → length p ≡ k.page_size
      → Grew k target (link p d) g
      → Grew k target d g
  Grew-link target d p (grown d') e (l, h, f) = (Linked-cons d d' 0 p e l, h, f)
  Grew-link target d p (out_of_memory d') e (leak, small, l, i, bad, f) =
      (leak, small, Linked-cons d d' leak p e l, i, bad, f)
  Grew-link target d p running e h = h

  module _ (i target : ℕ) (d : Device) (fits : d.num_pages * k.page_size < 2 ^ 32) where
    grow_done : (fuel : ℕ) → target ≤ d.num_pages * k.page_size → grow k fuel i target d ≡ grown d
    unfolding grow
    grow_done zero h = ground arith
    grow_done (suc fuel) h = ground arith

    grow_node :
        (fuel : ℕ)
        → d.num_pages * k.page_size < target
        → k.alloc i ≡ no_node
        → grow k (suc fuel) i target d ≡ out_of_memory d
    unfolding grow
    grow_node fuel h e = ground arith

    grow_page :
        (fuel : ℕ)
        → d.num_pages * k.page_size < target
        → k.alloc i ≡ no_page
        → grow k (suc fuel) i target d ≡ out_of_memory (record d { live_nodes = d.live_nodes + 1 })
    unfolding grow
    grow_page fuel h e = ground arith

    grow_more :
        (fuel : ℕ) (p : Page)
        → d.num_pages * k.page_size < target
        → k.alloc i ≡ page p
        → grow k (suc fuel) i target d ≡ grow k fuel (suc i) target (link p d)
    unfolding grow
    grow_more fuel p h e = ground arith

  Alloc-cases : (a : Alloc) → (a ≡ no_node) ⊎ ((a ≡ no_page) ⊎ ((p : Page) × (a ≡ page p)))
  Alloc-cases no_node = inl refl
  Alloc-cases no_page = inr (inl refl)
  Alloc-cases (page p) = inr (inr (p, refl))

  grow_stop :
      (fuel i target : ℕ) (d : Device)
      → target ≤ d.num_pages * k.page_size
      → d.num_pages * k.page_size < 2 ^ 32
      → Grew k target d (grow k fuel i target d)
  grow_stop fuel i target d h fits =
      subst (Grew k target d) (sym (grow_done i target d fits fuel h))
        (Linked-nil 0 d d.live_nodes (omega arith), h, fits)

  -- With fuel for the missing bytes the loop ends, whatever the allocator does.
  pub grow_lem :
      (fuel i target : ℕ) (d : Device)
      → IsKernel k
      → target ≤ fuel + d.num_pages * k.page_size
      → target + k.page_size < 2 ^ 32
      → d.num_pages * k.page_size < 2 ^ 32
      → Grew k target d (grow k fuel i target d)
  grow_lem zero i target d ik enough small fits = grow_stop zero i target d (omega arith) fits
  grow_lem (suc fuel) i target d ik enough small fits =
      elim (dec_lt (d.num_pages * k.page_size) target) [
        | no h ↦ grow_stop (suc fuel) i target d (omega arith) fits
        | yes h ↦ elim (Alloc-cases (k.alloc i)) [
          | inl e ↦ subst (Grew k target d) (sym (grow_node i target d fits fuel h e)) (
            0,
            omega arith,
            Linked-nil 0 d d.live_nodes (omega arith),
            i,
            subst Fails (sym e) tt,
            fits,
          )
          | inr (inl e) ↦ subst (Grew k target d) (sym (grow_page i target d fits fuel h e)) (
            1,
            omega arith,
            Linked-nil 1 d (d.live_nodes + 1) refl,
            i,
            subst Fails (sym e) tt,
            fits,
          )
          | inr (inr (p, e)) ↦
              let size : length p ≡ k.page_size = subst (Fills k.page_size) e (ik.fills i) in
              let pos_page = ik.page_pos in
              subst (Grew k target d) (sym (grow_more i target d fits fuel p h e)) (
                Grew-link target d p (grow k fuel (suc i) target (link p d)) size
                  (grow_lem fuel (suc i) target (link p d) ik (omega arith) small (omega arith)))
        ]
      ]
