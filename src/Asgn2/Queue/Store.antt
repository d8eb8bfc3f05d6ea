-- ===== src/Asgn2/Queue/Store.antt =====
-- `bottom_half`: bytes that fit in one page go to the page at `tail_index`, from `tail_offset` on.
use native.Mathlib.Nat.{mod-eq_of_lt}
use petulant_wookie.Base.{
  ℕ, zero, suc, ◌+◌, ◌-◌, ◌*◌, ◌%◌, ◌≤◌, ◌<◌, ◌^◌, ◌≡◌, refl, ◌∙◌, ap, ap₂, sym, List, [], ◌∷◌,
  ◌++◌, length, AllLength, take, drop, take-all, drop-all, length-take, min, overwrite,
  overwrite-nil, overwrite-split, overwrite-skip, length-overwrite, concat, arith, pos, min_int,
  min_int-eq-min, sub_size, sub_size-eq, leb, le→leb, leb_ℤ, lt→ltb, ltb, true,
}
use petulant_wookie.Asgn1.Device.{Page}
use petulant_wookie.Asgn2.Queue.{Emptying, emptied, store, store_pages}
use petulant_wookie.Kernel.{done}

-- What is to be stored fits in the page, and lies in the buffer.
pub record Fits (page_size : ℕ) (buf : List ℕ) (e : Emptying) : Type 0 where
  pub some_left : 0 < e.count
  pub inside : e.curr_offset + e.count ≤ page_size
  pub small : page_size < 2 ^ 31
  pub given : e.head + e.count ≤ length buf

module _ (page_size : ℕ) (buf : List ℕ) where
  bytes : Emptying → List ℕ
  bytes e = take e.count (drop e.head buf)

  store_empty :
      (b j : ℕ) (p : Page) (e : Emptying)
      → e.count ≡ 0
      → store page_size buf (pos b) p j e ≡ done (p, e)
  unfolding store
  store_empty b j p e h = ground arith

  store_before :
      (b j : ℕ) (p : Page) (e : Emptying) → j < b → store page_size buf (pos b) p j e ≡ done (p, e)
  unfolding store
  store_before b j p e h = ground arith

  store_here :
      (b j : ℕ) (p : Page) (e : Emptying)
      → b ≤ j
      → Fits page_size buf e
      → store page_size buf (pos b) p j e
        ≡ done (overwrite e.curr_offset (bytes e) p, emptied page_size e.count e)
  unfolding store bytes
  store_here b j p e h f =
      let low : e.curr_offset < page_size = omega (arith, f.some_left, f.inside) in
      let offset : e.curr_offset % page_size ≡ e.curr_offset = mod-eq_of_lt low in
      let rest : sub_size page_size e.curr_offset ≡ page_size - e.curr_offset =
        sub_size-eq page_size e.curr_offset (omega arith) (omega (arith, f.small)) in
      let size : min_int e.count (page_size - e.curr_offset) ≡ e.count =
        min_int-eq-min e.count (page_size - e.curr_offset) (omega (arith, f.inside, f.small))
          (omega (arith, f.small))
        ∙ (let m : min e.count (page_size - e.curr_offset) ≡ e.count = omega (arith, f.inside) in
            m) in
      let here : leb_ℤ (pos b) (pos j) ≡ true = ground arith in
      let more : ltb 0 e.count ≡ true = lt→ltb 0 e.count f.some_left in
      let given : leb (e.head + e.count) (length buf) ≡ true = le→leb _ _ f.given in
      rw (here, more, offset, rest, size, given)

  pub store_pages_empty :
      (b j : ℕ) (ps : List Page) (e : Emptying)
      → e.count ≡ 0
      → store_pages page_size buf (pos b) ps j e ≡ done (ps, e)
  unfolding store_pages
  store_pages_empty b j [] e h = refl
  store_pages_empty b j (p ∷ ps) e h =
      rw (store_empty b j p e h, store_pages, store_pages_empty b (j + 1) ps e h)

  store_pages_here :
      (b j : ℕ) (p : Page) (ps : List Page) (e : Emptying)
      → b ≤ j
      → Fits page_size buf e
      → store_pages page_size buf (pos b) (p ∷ ps) j e
        ≡ done (overwrite e.curr_offset (bytes e) p ∷ ps, emptied page_size e.count e)
  unfolding store_pages
  store_pages_here b j p ps e h f =
      let none_left : e.count - e.count ≡ 0 = omega arith in
      rw (
        store_here b j p e h f,
        store_pages,
        store_pages_empty b (j + 1) ps (emptied page_size e.count e) none_left,
      )

  store_pages_before :
      (b j : ℕ) (p : Page) (ps ps' : List Page) (e e' : Emptying)
      → j < b
      → store_pages page_size buf (pos b) ps (j + 1) e ≡ done (ps', e')
      → store_pages page_size buf (pos b) (p ∷ ps) j e ≡ done (p ∷ ps', e')
  unfolding store_pages
  store_pages_before b j p ps ps' e e' h r = rw (store_before b j p e h, store_pages, r)

  -- The pages after the loop are the old ones with the bytes written at the position.
  abbrev pub Stored : ℕ → ℕ → List Page → ℕ → Emptying → Type 0
  Stored b d ps j e =
      (ps' : List Page) × (store_pages page_size buf (pos b) ps j e
        ≡ done (ps', emptied page_size e.count e))
      × (concat ps'
          ≡ overwrite (d * page_size + e.curr_offset) (take e.count (drop e.head buf)) (concat ps))
      × AllLength page_size ps'
      × (length ps' ≡ length ps)

  pub store_pages_lem :
      (b d j : ℕ) (ps : List Page) (e : Emptying)
      → b ≡ j + d
      → d < length ps
      → AllLength page_size ps
      → Fits page_size buf e
      → Stored b d ps j e
  unfolding bytes
  store_pages_lem b d j [] e at h whole f = absurd (omega arith)
  store_pages_lem b zero j (p ∷ ps) e at h whole f =
      let o = e.curr_offset in
      let bs = take e.count (drop e.head buf) in
      let room = page_size - o in
      let short : length bs ≤ room =
        omega (arith, length-take e.count (drop e.head buf), f.inside) in
      let here : 0 * page_size + o ≡ o = omega arith in
      let joined : overwrite o bs (p ++ concat ps) ≡ overwrite o bs p ++ concat ps =
        overwrite-split o room bs p (concat ps) (omega (arith, f.inside, whole.0))
        ∙ ap₂ (λ x y. overwrite o x p ++ overwrite 0 y (concat ps)) (take-all room bs short)
            (drop-all room bs short)
        ∙ ap (λ t. overwrite o bs p ++ t) (overwrite-nil 0 (concat ps)) in
      (
        overwrite o bs p ∷ ps,
        store_pages_here b j p ps e (omega arith) f,
        sym joined ∙ ap (λ i. overwrite i bs (p ++ concat ps)) (sym here),
        (length-overwrite o bs p ∙ whole.0, whole.1),
        refl,
      )
  store_pages_lem b (suc d) j (p ∷ ps) e at h whole f =
      let (ps', r, cells, whole', same) =
        store_pages_lem b d (j + 1) ps e (omega arith) (omega arith) whole.1 f in
      let bs = take e.count (drop e.head buf) in
      let i = suc d * page_size + e.curr_offset in
      let later : i - length p ≡ d * page_size + e.curr_offset = omega (arith, whole.0) in
      (
        p ∷ ps',
        store_pages_before b j p ps ps' e (emptied page_size e.count e) (omega arith) r,
        ap (λ t. p ++ t) (cells ∙ ap (λ n. overwrite n bs (concat ps)) (sym later))
            ∙ sym (overwrite-skip i bs p (concat ps) (omega (arith, whole.0))),
        (whole.0, whole'),
        ap suc same,
      )
