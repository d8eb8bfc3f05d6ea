-- ===== src/Lab3/MyList/Freed.antt =====
-- Lab3/3.1.1/list.c: what `my_init` allocates `my_exit` frees.
use petulant_wookie.Base.{
  ℕ, zero, suc, ◌+◌, ◌≡◌, refl, ◌∙◌, ap, ap₂, sym, List, [], ◌∷◌, ◌++◌, append-nil, append_assoc,
  Option, none, some, Bool, true, length, length-append, set,
}
use petulant_wookie.Lab3.MyList.{
  ListKernel, IsList, Heap, val_at, build, print_values, print_list, my_init, remove_all, my_exit,
}

-- `n` numbers from `a` on, blocks that hold them, and the same blocks when they are freed.
abbrev pub count_from : ℕ → ℕ → List ℕ
count_from a zero = []
count_from a (suc n) = a ∷ count_from (a + 1) n

abbrev pub live : List ℕ → Heap
live [] = []
live (v ∷ vs) = some v ∷ live vs

abbrev pub freed : List ℕ → Heap
freed [] = []
freed (v ∷ vs) = none ∷ freed vs

val_at_end : (pre post : Heap) (v : ℕ) → val_at (pre ++ (some v ∷ post)) (length pre) ≡ some v
unfolding val_at
val_at_end [] post v = refl
val_at_end (x ∷ pre) post v = val_at_end pre post v

set_at_end :
    (pre post : Heap) (b c : Option ℕ)
    → set (pre ++ (b ∷ post)) (length pre) c ≡ (pre ++ (c ∷ [])) ++ post
set_at_end [] post b c = refl
set_at_end (x ∷ pre) post b c = ap (λ h. x ∷ h) (set_at_end pre post b c)

longer : (pre : Heap) (b : Option ℕ) → length (pre ++ (b ∷ [])) ≡ length pre + 1
longer pre b = length-append pre (b ∷ [])

module _ {L : Type 0} (k : ListKernel L) (list : IsList k) where
  build_lem :
      (kmalloc : ℕ → Bool) (n v : ℕ) (l : L) (heap : Heap)
      → ((i : ℕ) → kmalloc i ≡ true)
      → (l' : L) × (build k kmalloc n v l heap ≡ some (l', heap ++ live (count_from v n)))
        × (k.nodes l' ≡ k.nodes l ++ count_from (length heap) n)
  unfolding build
  build_lem kmalloc zero v l heap all =
      (l, ap (λ h. some (l, h)) (sym (append-nil heap)), sym (append-nil (k.nodes l)))
  build_lem kmalloc (suc n) v l heap all =
      let a = length heap in
      let heap1 = heap ++ (some v ∷ []) in
      let (l', e, ns) = build_lem kmalloc n (v + 1) (k.list_add_tail a l) heap1 all in
      (
        l',
        rw (all v) (
            e
            ∙ ap (λ h. some (l', h))
                (append_assoc heap (some v ∷ []) (live (count_from (v + 1) n)))),
        ns
            ∙ ap₂ (λ xs m. xs ++ count_from m n) (list.added a l) (longer heap (some v))
            ∙ append_assoc (k.nodes l) (a ∷ []) (count_from (a + 1) n),
      )

  print_cons :
      (a v : ℕ) (ns vs : List ℕ) (heap : Heap)
      → val_at heap a ≡ some v
      → print_values k ns heap ≡ some vs
      → print_values k (a ∷ ns) heap ≡ some (v ∷ vs)
  unfolding print_values
  print_cons a v ns vs heap e f = rw (e, print_values) (rw f)

  remove_cons :
      (a v : ℕ) (ns vs : List ℕ) (l l' : L) (heap heap' : Heap)
      → val_at heap a ≡ some v
      → remove_all k ns (k.list_del a l) (set heap a none) ≡ some (l', heap', vs)
      → remove_all k (a ∷ ns) l heap ≡ some (l', heap', v ∷ vs)
  unfolding remove_all
  remove_cons a v ns vs l l' heap heap' e f = rw (e, remove_all) (rw f)

  printed :
      (l : L) (heap : Heap) (vs : List ℕ)
      → print_values k (k.nodes l) heap ≡ some vs
      → print_list k (some (l, heap)) ≡ some (l, heap, vs)
  unfolding print_list
  printed l heap vs e = rw (e, print_list)

  print_lem :
      (vs : List ℕ) (pre : Heap)
      → print_values k (count_from (length pre) (length vs)) (pre ++ live vs) ≡ some vs
  unfolding print_values
  print_lem [] pre = refl
  print_lem (v ∷ vs) pre =
      let rest : print_values k (count_from (length pre + 1) (length vs))
            (pre ++ (some v ∷ live vs))
          ≡ some vs =
        ap₂ (λ m h. print_values k (count_from m (length vs)) h) (sym (longer pre (some v)))
          (sym (append_assoc pre (some v ∷ []) (live vs)))
        ∙ print_lem vs (pre ++ (some v ∷ [])) in
      print_cons (length pre) v (count_from (length pre + 1) (length vs)) vs
        (pre ++ (some v ∷ live vs)) (val_at_end pre (live vs) v) rest

  remove_lem :
      (vs : List ℕ) (pre : Heap) (l : L)
      → k.nodes l ≡ count_from (length pre) (length vs)
      → (l' : L) × (remove_all k (count_from (length pre) (length vs)) l (pre ++ live vs)
          ≡ some (l', pre ++ freed vs, vs))
        × (k.nodes l' ≡ [])
  unfolding remove_all
  remove_lem [] pre l e = (l, refl, e)
  remove_lem (v ∷ vs) pre l e =
      let a = length pre in
      let pre1 = pre ++ (none ∷ []) in
      let l1 = k.list_del a l in
      let others = count_from (a + 1) (length vs) in
      let same : count_from (length pre1) (length vs) ≡ others =
        ap (λ m. count_from m (length vs)) (longer pre none) in
      let (l', run, empty) = remove_lem vs pre1 l1 (list.deleted a others l e ∙ sym same) in
      let rest : remove_all k others l1 (set (pre ++ (some v ∷ live vs)) a none)
          ≡ some (l', pre ++ (none ∷ freed vs), vs) =
        ap₂ (λ m h. remove_all k m l1 h) (sym same) (set_at_end pre (live vs) (some v) none)
        ∙ run
        ∙ ap (λ h. some (l', h, vs)) (append_assoc pre (none ∷ []) (freed vs)) in
      (
        l',
        remove_cons a v others vs l l' (pre ++ (some v ∷ live vs)) (pre ++ (none ∷ freed vs))
            (val_at_end pre (live vs) v) rest,
        empty,
      )

  -- From an empty list, with memory for each node: my_init prints 0 to 4 and leaves five new blocks
  -- with these values, in this order in the list; my_exit prints them in the same order, frees the five
  -- blocks and no other, and leaves the list empty.
  pub my_exit-my_init :
      (kmalloc : ℕ → Bool) (l : L) (heap : Heap)
      → k.nodes l ≡ []
      → ((i : ℕ) → kmalloc i ≡ true)
      → let vals = count_from 0 5 in
        (l1 l2 : L) × (my_init k kmalloc l heap ≡ some (l1, heap ++ live vals, vals))
        × (k.nodes l1 ≡ count_from (length heap) 5)
        × (my_exit k l1 (heap ++ live vals) ≡ some (l2, heap ++ freed vals, vals))
        × (k.nodes l2 ≡ [])
  unfolding my_init my_exit
  my_exit-my_init kmalloc l heap empty all =
      let vals = count_from 0 5 in
      let (l1, built, ns) = build_lem kmalloc 5 0 l heap all in
      let nodes : k.nodes l1 ≡ count_from (length heap) 5 =
        ns ∙ ap (λ xs. xs ++ count_from (length heap) 5) empty in
      let (l2, removed, gone) = remove_lem vals heap l1 nodes in
      (
        l1,
        l2,
        ap (print_list k) built
            ∙ printed l1 (heap ++ live vals) vals
                (ap (λ ns. print_values k ns (heap ++ live vals)) nodes ∙ print_lem vals heap),
        nodes,
        ap (λ ns. remove_all k ns l1 (heap ++ live vals)) nodes ∙ removed,
        gone,
      )
