-- ===== src/Lab3/MyList.antt =====
-- Lab3/3.1.1/list.c: a linked list of five nodes that the module builds and frees.
pub mod Freed
use petulant_wookie.Base.{
  ℕ, zero, suc, ◌+◌, ◌≡◌, List, [], ◌∷◌, ◌++◌, Option, none, some, Bool, if◌then◌else◌, length,
  get_elem?, set,
}

-- The kernel's lists: the addresses of the nodes in order, from the head on.
pub record ListKernel (L : Type 0) : Type 0 where
  pub nodes : L → List ℕ
  pub list_add_tail : ℕ → L → L
  pub list_del : ℕ → L → L

pub record IsList {L : Type 0} (k : ListKernel L) : Type 0 where
  pub added : (a : ℕ) (l : L) → k.nodes (k.list_add_tail a l) ≡ k.nodes l ++ (a ∷ [])
  pub deleted :
      (a : ℕ) (rest : List ℕ) (l : L) → k.nodes l ≡ a ∷ rest → k.nodes (k.list_del a l) ≡ rest

-- The field `val` of each block that `kmalloc` has given out, by address; a freed one is `none`.
abbrev pub Heap : Type 0
Heap = List (Option ℕ)

-- Reading `val` of a node; `none` is a node that is not there.
pub val_at : Heap → ℕ → Option ℕ
val_at heap a = elim (get_elem? heap a) [ none ↦ none | some block ↦ block ]

module _ {L : Type 0} (k : ListKernel L) where
  -- The loop of `my_init` for the last `n` nodes; `kmalloc` tells for each value whether there is
  -- memory, and `none` is an access to a null pointer.
  pub build : (ℕ → Bool) → ℕ → ℕ → L → Heap → Option (L × Heap)
  build kmalloc zero val l heap = some (l, heap)
  build kmalloc (suc n) val l heap =
      let more =
        build kmalloc n (val + 1) (k.list_add_tail (length heap) l) (heap ++ (some val ∷ [])) in
      if kmalloc val then more else none

  -- The values that the traversal prints.
  pub print_values : List ℕ → Heap → Option (List ℕ)
  print_values [] heap = some []
  print_values (a ∷ rest) heap = elim (val_at heap a) [
    | none ↦ none
    | some v ↦ elim (print_values rest heap) [ none ↦ none | some vs ↦ some (v ∷ vs) ]
  ]

  pub print_list : Option (L × Heap) → Option (L × Heap × List ℕ)
  print_list none = none
  print_list (some (l, heap)) = elim (print_values (k.nodes l) heap) [
    | none ↦ none
    | some vs ↦ some (l, heap, vs)
  ]

  unfoldable pub my_init : (ℕ → Bool) → L → Heap → Option (L × Heap × List ℕ)
  unfolding build print_values print_list val_at
  my_init kmalloc l heap = print_list (build kmalloc 5 0 l heap)

  -- The loop of `my_exit` over the nodes that are left; it has read the next node before it frees one.
  pub remove_all : List ℕ → L → Heap → Option (L × Heap × List ℕ)
  remove_all [] l heap = some (l, heap, [])
  remove_all (a ∷ rest) l heap = elim (val_at heap a) [
    | none ↦ none
    | some v ↦ elim (remove_all rest (k.list_del a l) (set heap a none)) [
      | none ↦ none
      | some (l', heap', vs) ↦ some (l', heap', v ∷ vs)
    ]
  ]

  unfoldable pub my_exit : L → Heap → Option (L × Heap × List ℕ)
  unfolding remove_all val_at
  my_exit l heap = remove_all (k.nodes l) l heap
