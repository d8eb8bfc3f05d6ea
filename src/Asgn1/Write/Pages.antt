-- ===== src/Asgn1/Write/Pages.antt =====
-- `asgn1_write`: the loop over the page list overwrites a window of the pages laid end to end.
use native.Mathlib.Nat.{mod-lt}
use petulant_wookie.Base.{
  ℕ, zero, suc, ◌+◌, ◌-◌, ◌*◌, ◌%◌, ◌≤◌, ◌<◌, ◌^◌, ◌≡◌, refl, ◌∙◌, ap, ap₂, sym, subst, List, [],
  ◌∷◌, ◌++◌, some, take, drop, arith, length, length-append, concat, AllLength, overwrite,
  overwrite-nil, overwrite-on_nil, overwrite-split, overwrite-skip, length-overwrite, take-take,
  drop-take, drop-drop, min, dec_lt, sub_size, sub_size-eq, mod-add_to_end, min_int, min_int-eq-min,
  ℤ, pos,
}
use petulant_wookie.Kernel.{Kernel, IsKernel, Progresses}
use petulant_wookie.Asgn1.Device.{Page}
use petulant_wookie.Asgn1.Write.{Writing, stored, write_page, fill, write_pages}
use petulant_wookie.Asgn1.Write.Copy.{advance, Fits, write_page_lem}

advance_all : (w : Writing) → w.count ≡ 0 → w ≡ advance w.count w.calls w
advance_all w e = ground arith

advance-advance :
    (n c c' : ℕ) (w : Writing)
    → n ≤ w.count
    → advance (w.count - n) c' (advance n c w) ≡ advance w.count c' w
advance-advance n c c' w h = ground arith

-- What can be written with no cast or sum out of range, and is in the user's buffer.
pub record IsReady (buf : List ℕ) (w : Writing) : Type 0 where
  pub asked : w.count < 2 ^ 31
  pub room : w.size_written + w.count < 2 ^ 32
  pub given : w.size_written + w.count ≤ length buf

-- The bytes still to be written.
abbrev pub source : List ℕ → Writing → List ℕ
source buf w = take w.count (drop w.size_written buf)

-- A write of the source, cut at the end of the first page, and the rest at the next page.
overwrite-cons :
    (m off off' n : ℕ) (bytes p rest : List ℕ)
    → length p ≡ m
    → off < m
    → (m - off ≤ n → off' ≡ 0)
    → overwrite off (take (min n (m - off)) bytes) p
        ++ overwrite off' (take (n - min n (m - off)) (drop (min n (m - off)) bytes)) rest
      ≡ overwrite off (take n bytes) (p ++ rest)
overwrite-cons m off off' n bytes p rest e lt at =
    ap₂ ◌++◌ (ap (λ t. overwrite off t p) (sym (take-take (m - off) n bytes)))
      (second (dec_lt n (m - off)))
    ∙ sym (overwrite-split off (m - off) (take n bytes) p rest (omega arith))
  where
    second :
        Dec (n < m - off)
        → overwrite off' (take (n - min n (m - off)) (drop (min n (m - off)) bytes)) rest
          ≡ overwrite 0 (drop (m - off) (take n bytes)) rest
    second (yes h) =
        let e₁ : n - min n (m - off) ≡ 0 = omega arith in
        let e₂ : 0 ≡ n - (m - off) = omega arith in
        ap (λ t. overwrite off' (take t (drop (min n (m - off)) bytes)) rest) e₁
        ∙ overwrite-nil off' rest
        ∙ sym (overwrite-nil 0 rest)
        ∙ ap (λ t. overwrite 0 t rest)
            (ap (λ t. take t (drop (m - off) bytes)) e₂ ∙ sym (drop-take (m - off) n bytes))
    second (no h) =
        let e₁ : min n (m - off) ≡ m - off = omega arith in
        ap₂ (λ o t. overwrite o (take (n - t) (drop t bytes)) rest) (at (omega arith)) e₁
        ∙ ap (λ t. overwrite 0 t rest) (sym (drop-take (m - off) n bytes))

module _ (k : Kernel) (buf : List ℕ) (fuel : ℕ) where
  fill_in :
      (begin i : ℕ) (p : Page) (w : Writing)
      → begin ≤ i
      → fill k buf fuel (pos begin) p i w
        ≡ write_page k buf fuel p
            (w.f_pos % k.page_size)
            (min_int w.count (sub_size k.page_size (w.f_pos % k.page_size)))
            w
  unfolding fill
  fill_in begin i p w h = ground arith

  fill_skip :
      (begin i : ℕ) (p : Page) (w : Writing)
      → i < begin
      → fill k buf fuel (pos begin) p i w ≡ some (p, w)
  unfolding fill
  fill_skip begin i p w h = ground arith

  write_pages-cons :
      (begin : ℤ) (i : ℕ) (p p' : Page) (ps ps' : List Page) (w w' w'' : Writing)
      → fill k buf fuel begin p i w ≡ some (p', w')
      → write_pages k buf fuel begin ps (i + 1) w' ≡ some (ps', w'')
      → write_pages k buf fuel begin (p ∷ ps) i w ≡ some (p' ∷ ps', w'')
  unfolding write_pages
  write_pages-cons begin i p p' ps ps' w w' w'' e e' = rw (e, write_pages) (rw e')

  none_left :
      (begin i : ℕ) (w : Writing)
      → w.count ≡ 0
      → write_pages k buf fuel (pos begin) [] i w ≡ some ([], advance w.count w.calls w)
  unfolding write_pages
  none_left begin i w e = ap (λ v. some ([], v)) (advance_all w e)

  -- How many bytes are written to a page, starting from position `f_pos`.
  abbrev here : Writing → ℕ
  here w = min w.count (k.page_size - w.f_pos % k.page_size)

  size_here :
      IsKernel k
      → (w : Writing) → IsReady buf w
      → min_int w.count (sub_size k.page_size (w.f_pos % k.page_size)) ≡ here w
  size_here ik w i =
      let below = mod-lt w.f_pos ik.page_pos in
      let small = ik.page_small in
      ap (min_int w.count)
        (sub_size-eq k.page_size (w.f_pos % k.page_size) (omega arith) (omega arith))
      ∙ min_int-eq-min w.count (k.page_size - w.f_pos % k.page_size) i.asked (omega arith)

  -- What the page loop leaves: pages of the same shape that hold the bytes `bytes`.
  pub record Stored (begin i : ℕ) (ps : List Page) (w : Writing) (bytes : List ℕ) : Type 0 where
    pub ps' : List Page
    pub calls' : ℕ
    pub ended : write_pages k buf fuel (pos begin) ps i w ≡ some (ps', advance w.count calls' w)
    pub bytes' : concat ps' ≡ bytes
    pub whole' : AllLength k.page_size ps'
    pub many' : length ps' ≡ length ps

module _ (k : Kernel) (buf : List ℕ) (fuel : ℕ) (ik : IsKernel k) (pr : Progresses k)
    (enough : k.page_size ≤ fuel) where
  fill_write :
      (begin i : ℕ) (p : Page) (w : Writing)
      → begin ≤ i
      → IsReady buf w
      → (c : ℕ) × (fill k buf fuel (pos begin) p i w
          ≡ some (
            stored buf p (w.f_pos % k.page_size) (here k buf fuel w) w,
            advance (here k buf fuel w) c w,
          ))
  fill_write begin i p w h ready =
      let off = w.f_pos % k.page_size in
      let n = here k buf fuel w in
      let below : off < k.page_size = mod-lt w.f_pos ik.page_pos in
      let fits : Fits buf w n = omega arith in
      let (c, got) =
        write_page_lem buf k fuel p off n w ik pr (omega arith) (omega arith) (λ _. refl) fits in
      (
        c,
        fill_in k buf fuel begin i p w h
            ∙ ap (λ t. write_page k buf fuel p off t w) (size_here k buf fuel ik w ready)
            ∙ got,
      )

  next_page :
      (w : Writing) (n : ℕ)
      → n ≡ here k buf fuel w
      → k.page_size - w.f_pos % k.page_size ≤ w.count
      → (w.f_pos + n) % k.page_size ≡ 0
  next_page w n e h =
      let below = mod-lt w.f_pos ik.page_pos in mod-add_to_end w.f_pos n k.page_size (omega arith)

  IsReady-advance :
      (n c : ℕ) (w : Writing) → n ≤ w.count → IsReady buf w → IsReady buf (advance n c w)
  IsReady-advance n c w h r = omega arith

  -- The rest of the write fits in the rest of the pages.
  rest_fits :
      (p : Page) (ps : List Page) (w : Writing)
      → length p ≡ k.page_size
      → (0 < w.count → w.f_pos % k.page_size + w.count ≤ length (concat (p ∷ ps)))
      → let n = here k buf fuel w in
        0 < w.count - n → (w.f_pos + n) % k.page_size + (w.count - n) ≤ length (concat ps)
  rest_fits p ps w e h left =
      let off = w.f_pos % k.page_size in
      let below : off < k.page_size = mod-lt w.f_pos ik.page_pos in
      omega (
        arith,
        next_page w (here k buf fuel w) refl (omega arith),
        h (omega arith),
        length-append p (concat ps),
      )

  write_pages_from :
      (begin i : ℕ) (ps : List Page) (w : Writing)
      → begin ≤ i
      → AllLength k.page_size ps
      → IsReady buf w
      → (0 < w.count → w.f_pos % k.page_size + w.count ≤ length (concat ps))
      → Stored k buf fuel begin i ps w
          (overwrite (w.f_pos % k.page_size) (source buf w) (concat ps))
  write_pages_from begin i [] w h all ready fits = record {
    ps' = [];
    calls' = w.calls;
    ended = none_left k buf fuel begin i w (nothing (dec_lt 0 w.count));
    bytes' = sym (overwrite-on_nil (w.f_pos % k.page_size) (source buf w));
    whole' = tt;
    many' = refl;
  }
    where
      nothing : Dec (0 < w.count) → w.count ≡ 0
      nothing (yes more) = absurd (omega (arith, fits more))
      nothing (no none_more) = omega arith
  write_pages_from begin i (p ∷ ps) w h all ready fits =
      let off = w.f_pos % k.page_size in
      let n = here k buf fuel w in
      let (c, e) = fill_write begin i p w h ready in
      let w' = advance n c w in
      let rest =
        write_pages_from begin (i + 1) ps w' (omega arith) all.1
          (IsReady-advance n c w (omega arith) ready) (rest_fits p ps w all.0 fits) in
      record {
        ps' = stored buf p off n w ∷ rest.ps';
        calls' = rest.calls';
        ended =
            write_pages-cons k buf fuel (pos begin) i p (stored buf p off n w) ps rest.ps' w w'
              (advance w'.count rest.calls' w') e rest.ended
            ∙ ap (λ v. some (stored buf p off n w ∷ rest.ps', v))
                (advance-advance n c rest.calls' w (omega arith));
        bytes' =
            ap (λ t. stored buf p off n w ++ t)
              (rest.bytes'
                ∙ ap (λ t. overwrite (w'.f_pos % k.page_size) (take w'.count t) (concat ps))
                    (sym (drop-drop w.size_written n buf)))
            ∙ overwrite-cons k.page_size off (w'.f_pos % k.page_size) w.count
                (drop w.size_written buf) p (concat ps) all.0 (mod-lt w.f_pos ik.page_pos)
                (next_page w n refl);
        whole' = (length-overwrite off (take n (drop w.size_written buf)) p ∙ all.0, rest.whole');
        many' = ap suc rest.many';
      }

  -- From `j` pages before the first page of the request on.
  pub write_pages_lem :
      (begin i j : ℕ) (ps : List Page) (w : Writing)
      → i + j ≡ begin
      → AllLength k.page_size ps
      → IsReady buf w
      → (0 < w.count → j * k.page_size + w.f_pos % k.page_size + w.count ≤ length (concat ps))
      → Stored k buf fuel begin i ps w
          (overwrite (j * k.page_size + w.f_pos % k.page_size) (source buf w) (concat ps))
  write_pages_lem begin i zero ps w h all ready fits =
      subst (λ o. Stored k buf fuel begin i ps w (overwrite o (source buf w) (concat ps)))
        (let e : w.f_pos % k.page_size ≡ 0 * k.page_size + w.f_pos % k.page_size = omega arith in e)
        (write_pages_from begin i ps w (omega arith) all ready (λ more. omega (arith, fits more)))
  write_pages_lem begin i (suc j) [] w h all ready fits = record {
    ps' = [];
    calls' = w.calls;
    ended = none_left k buf fuel begin i w (nothing (dec_lt 0 w.count));
    bytes' = sym (overwrite-on_nil (suc j * k.page_size + w.f_pos % k.page_size) (source buf w));
    whole' = tt;
    many' = refl;
  }
    where
      nothing : Dec (0 < w.count) → w.count ≡ 0
      nothing (yes more) = absurd (omega (arith, fits more))
      nothing (no none_more) = omega arith
  write_pages_lem begin i (suc j) (p ∷ ps) w h all ready fits =
      let o = suc j * k.page_size + w.f_pos % k.page_size in
      let size = all.0 in
      let e : j * k.page_size + w.f_pos % k.page_size ≡ o - length p = omega arith in
      let rest =
        write_pages_lem begin (i + 1) j ps w (omega arith) all.1 ready
          (λ more. omega (arith, fits more, length-append p (concat ps))) in
      record {
        ps' = p ∷ rest.ps';
        calls' = rest.calls';
        ended =
            write_pages-cons k buf fuel (pos begin) i p p ps rest.ps' w w
              (advance w.count rest.calls' w) (fill_skip k buf fuel begin i p w (omega arith))
              rest.ended;
        bytes' =
            ap (λ t. p ++ t) (rest.bytes' ∙ ap (λ t. overwrite t (source buf w) (concat ps)) e)
            ∙ sym (overwrite-skip o (source buf w) p (concat ps) (omega arith));
        whole' = (all.0, rest.whole');
        many' = ap suc rest.many';
      }
