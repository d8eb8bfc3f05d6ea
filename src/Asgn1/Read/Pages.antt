-- ===== src/Asgn1/Read/Pages.antt =====
-- `asgn1_read`: the loop over the page list reads a window of the pages laid end to end.
use native.Mathlib.Nat.{mod-lt}
use petulant_wookie.Base.{
  ℕ, zero, suc, ◌+◌, ◌-◌, ◌*◌, ◌%◌, ◌≤◌, ◌<◌, ◌^◌, ◌≡◌, refl, ◌∙◌, ap, ap₂, sym, List, [], ◌∷◌,
  ◌++◌, some, take, drop, arith, append-nil, append_assoc, length, length-append, length-take,
  length-drop, concat, AllLength, take-drop-append, drop-append_ge, take-min, take-nil, drop-nil,
  min, dec_lt, sub_size, sub_size-eq, mod-add_to_end, min_int, min_int-eq-min, ℤ, pos,
}
use petulant_wookie.Kernel.{Kernel, IsKernel, Progresses}
use petulant_wookie.Asgn1.Device.{Page}
use petulant_wookie.Asgn1.Read.{Reading, read_page, visit, read_pages}
use petulant_wookie.Asgn1.Read.Copy.{advance, Fits, read_page_lem}

-- The locals after the bytes `bs` went to the user, in `c` calls altogether.
abbrev pub give : List ℕ → ℕ → Reading → Reading
give bs c r = record {
  f_pos = r.f_pos + length bs;
  actual_size = r.actual_size - length bs;
  size_read = r.size_read + length bs;
  buf = r.buf ++ bs;
  calls = c;
}

give-nil : (r : Reading) → r ≡ give [] r.calls r
give-nil r = ground (arith, append-nil r.buf)

give-give : (bs cs : List ℕ) (b c : ℕ) (r : Reading) → give cs c (give bs b r) ≡ give (bs ++ cs) c r
give-give bs cs b c r = ground (arith, length-append bs cs, append_assoc r.buf bs cs)

-- What can be read with no cast or sum out of range.
pub record IsReady (r : Reading) : Type 0 where
  pub asked : r.actual_size < 2 ^ 31
  pub room : r.size_read + r.actual_size < 2 ^ 32

IsReady-give :
    (bs : List ℕ) (c : ℕ) (r : Reading)
    → length bs ≤ r.actual_size
    → IsReady r
    → IsReady (give bs c r)
IsReady-give bs c r h i = omega arith

abbrev window : List ℕ → ℕ → ℕ → List ℕ
window bytes off n = take n (drop off bytes)

length-window :
    (bytes : List ℕ) (off n : ℕ) → off + n ≤ length bytes → length (window bytes off n) ≡ n
length-window bytes off n h = omega (arith, length-take n (drop off bytes), length-drop off bytes)

advance-eq-give :
    (p : Page) (off n c : ℕ) (r : Reading)
    → off + n ≤ length p
    → advance p off n c r ≡ give (window p off n) c r
advance-eq-give p off n c r h =
    ap
      (λ m. record {
        f_pos = r.f_pos + m;
        actual_size = r.actual_size - m;
        size_read = r.size_read + m;
        buf = r.buf ++ window p off n;
        calls = c;
      })
      (sym (length-window p off n h))

-- The part of a window that lies in the first page, and the part that does not.
window-cons :
    (m off off' n : ℕ) (p rest : List ℕ)
    → length p ≡ m
    → off < m
    → (m - off ≤ n → off' ≡ 0)
    → window p off (min n (m - off)) ++ window rest off' (n - min n (m - off))
      ≡ window (p ++ rest) off n
window-cons m off off' n p rest e lt at =
    ap₂ ◌++◌ first (second (dec_lt n (m - off)))
    ∙ sym (take-drop-append n off (m - off) p rest (omega arith))
  where
    first : window p off (min n (m - off)) ≡ window p off n
    first =
        let e' : min n (m - off) ≡ min n (length (drop off p)) = omega (arith, length-drop off p) in
        ap (λ t. take t (drop off p)) e' ∙ take-min n (drop off p)

    second : Dec (n < m - off) → window rest off' (n - min n (m - off)) ≡ take (n - (m - off)) rest
    second (yes h) =
        let e₁ : n - min n (m - off) ≡ 0 = omega arith in
        let e₂ : 0 ≡ n - (m - off) = omega arith in
        ap (λ t. take t (drop off' rest)) e₁ ∙ ap (λ t. take t rest) e₂
    second (no h) =
        let e₁ : n - min n (m - off) ≡ n - (m - off) = omega arith in
        let e₂ : off' ≡ 0 = at (omega arith) in ap₂ (λ s t. take s (drop t rest)) e₁ e₂

module _ (k : Kernel) (fuel : ℕ) where
  pub visit_in :
      (begin i : ℕ) (p : Page) (r : Reading)
      → begin ≤ i
      → visit k fuel (pos begin) p i r
        ≡ read_page k fuel p
            (r.f_pos % k.page_size)
            (min_int r.actual_size (sub_size k.page_size (r.f_pos % k.page_size)))
            r
  unfolding visit
  visit_in begin i p r h = ground arith

  pub visit_skip :
      (begin i : ℕ) (p : Page) (r : Reading) → i < begin → visit k fuel (pos begin) p i r ≡ some r
  unfolding visit
  visit_skip begin i p r h = ground arith

  pub read_pages-cons :
      (begin : ℤ) (i : ℕ) (p : Page) (ps : List Page) (r r' : Reading)
      → visit k fuel begin p i r ≡ some r'
      → read_pages k fuel begin (p ∷ ps) i r ≡ read_pages k fuel begin ps (i + 1) r'
  unfolding read_pages
  read_pages-cons begin i p ps r r' e = rw (e, read_pages)

module _ (k : Kernel) where
  -- How many bytes are read from a page, starting from position `f_pos`.
  abbrev pub here : Reading → ℕ
  here r = min r.actual_size (k.page_size - r.f_pos % k.page_size)

  pub size_here :
      IsKernel k
      → (r : Reading) → IsReady r
      → min_int r.actual_size (sub_size k.page_size (r.f_pos % k.page_size)) ≡ here r
  size_here ik r i =
      let below = mod-lt r.f_pos ik.page_pos in
      let small = ik.page_small in
      ap (min_int r.actual_size)
        (sub_size-eq k.page_size (r.f_pos % k.page_size) (omega arith) (omega arith))
      ∙ min_int-eq-min r.actual_size (k.page_size - r.f_pos % k.page_size) i.asked (omega arith)

module _ (k : Kernel) (fuel : ℕ) (ik : IsKernel k) (pr : Progresses k)
    (enough : k.page_size ≤ fuel) where
  visit_read :
      (begin i : ℕ) (p : Page) (r : Reading)
      → begin ≤ i
      → length p ≡ k.page_size
      → IsReady r
      → (c : ℕ) × (visit k fuel (pos begin) p i r
          ≡ some (give (window p (r.f_pos % k.page_size) (here k r)) c r))
  visit_read begin i p r h e ready =
      let off = r.f_pos % k.page_size in
      let below : off < k.page_size = mod-lt r.f_pos ik.page_pos in
      let fits : Fits r (here k r) = omega arith in
      let (c, got) =
        read_page_lem k fuel p off (here k r) r ik pr (omega arith) (omega arith) (λ _. refl)
          fits in
      (
        c,
        visit_in k fuel begin i p r h
            ∙ ap (λ n. read_page k fuel p off n r) (size_here k ik r ready)
            ∙ got
            ∙ ap some (advance-eq-give p off (here k r) c r (omega arith)),
      )

  -- The position after a page: the next page starts at offset 0.
  next_page :
      (r : Reading) (n : ℕ)
      → n ≡ here k r
      → k.page_size - r.f_pos % k.page_size ≤ r.actual_size
      → (r.f_pos + n) % k.page_size ≡ 0
  next_page r n e h =
      let below = mod-lt r.f_pos ik.page_pos in mod-add_to_end r.f_pos n k.page_size (omega arith)

  -- What is read here and from the following pages makes up the window.
  windows :
      (p : Page) (rest : List ℕ) (r : Reading) (n : ℕ)
      → n ≡ here k r
      → length p ≡ k.page_size
      → window p (r.f_pos % k.page_size) n
          ++ window rest ((r.f_pos + n) % k.page_size) (r.actual_size - n)
        ≡ window (p ++ rest) (r.f_pos % k.page_size) r.actual_size
  windows p rest r n e all =
      let off = r.f_pos % k.page_size in
      ap (λ t. window p off t ++ window rest ((r.f_pos + n) % k.page_size) (r.actual_size - t)) e
      ∙ window-cons k.page_size off ((r.f_pos + n) % k.page_size) r.actual_size p rest all
          (mod-lt r.f_pos ik.page_pos) (next_page r n e)

  -- From the first page of the request on.
  read_pages_from :
      (begin i : ℕ) (ps : List Page) (r : Reading)
      → begin ≤ i
      → AllLength k.page_size ps
      → IsReady r
      → (c : ℕ) × (read_pages k fuel (pos begin) ps i r
          ≡ some (give (window (concat ps) (r.f_pos % k.page_size) r.actual_size) c r))
  unfolding read_pages
  read_pages_from begin i [] r h all ready =
      let off = r.f_pos % k.page_size in
      let e : [] ≡ window [] off r.actual_size =
        sym (ap (take r.actual_size) (drop-nil off) ∙ take-nil r.actual_size) in
      (r.calls, ap some (give-nil r ∙ ap (λ bs. give bs r.calls r) e))
  read_pages_from begin i (p ∷ ps) r h all ready =
      let off = r.f_pos % k.page_size in
      let n = here k r in
      let w = window p off n in
      let below : off < k.page_size = mod-lt r.f_pos ik.page_pos in
      let size : length w ≡ n = length-window p off n (omega arith) in
      let (c, e) = visit_read begin i p r h all.0 ready in
      let r' = give w c r in
      let (c', e') =
        read_pages_from begin (i + 1) ps r' (omega arith) all.1
          (IsReady-give w c r (omega arith) ready) in
      let w' = window (concat ps) (r'.f_pos % k.page_size) r'.actual_size in
      (
        c',
        read_pages-cons k fuel (pos begin) i p ps r r' e
            ∙ e'
            ∙ ap some (
                give-give w w' c c' r
                ∙ ap (λ bs. give bs c' r)
                    (ap
                        (λ m.
                          w ++ window (concat ps) ((r.f_pos + m) % k.page_size) (r.actual_size - m))
                        size
                      ∙ windows p (concat ps) r n refl all.0)),
      )

  -- From `j` pages before the first page of the request on.
  pub read_pages_lem :
      (begin i j : ℕ) (ps : List Page) (r : Reading)
      → i + j ≡ begin
      → AllLength k.page_size ps
      → IsReady r
      → (c : ℕ) × (read_pages k fuel (pos begin) ps i r
          ≡ some (
              give
                (window (concat ps) (j * k.page_size + r.f_pos % k.page_size) r.actual_size)
                c
                r))
  unfolding read_pages
  read_pages_lem begin i zero ps r h all ready =
      let (c, e) = read_pages_from begin i ps r (omega arith) all ready in
      let e' : r.f_pos % k.page_size ≡ 0 * k.page_size + r.f_pos % k.page_size = omega arith in
      (c, e ∙ ap (λ o. some (give (window (concat ps) o r.actual_size) c r)) e')
  read_pages_lem begin i (suc j) [] r h all ready =
      let o = suc j * k.page_size + r.f_pos % k.page_size in
      let e : [] ≡ window [] o r.actual_size =
        sym (ap (take r.actual_size) (drop-nil o) ∙ take-nil r.actual_size) in
      (r.calls, ap some (give-nil r ∙ ap (λ bs. give bs r.calls r) e))
  read_pages_lem begin i (suc j) (p ∷ ps) r h all ready =
      let (c, e) = read_pages_lem begin (i + 1) j ps r (omega arith) all.1 ready in
      let o = suc j * k.page_size + r.f_pos % k.page_size in
      let e' : j * k.page_size + r.f_pos % k.page_size ≡ o - length p = omega arith in
      (
        c,
        read_pages-cons k fuel (pos begin) i p ps r r (visit_skip k fuel begin i p r (omega arith))
            ∙ e
            ∙ ap (λ t. some (give (take r.actual_size t) c r))
                (ap (λ t. drop t (concat ps)) e'
                  ∙ sym (drop-append_ge o p (concat ps) (omega arith))),
      )
