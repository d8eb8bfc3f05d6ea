-- ===== src/Asgn2/Port/Fifo.antt =====
-- The circular buffer holds a queue of bytes: those from `head` up to `tail`, going round.
use petulant_wookie.Base.{
  ℕ, zero, suc, ◌+◌, ◌-◌, ◌%◌, ◌<◌, ◌≡◌, refl, ◌∙◌, ap, ap₂, sym, List, [], ◌∷◌, ◌++◌, length,
  get_or, set, get_or-set_self, get_or-set_ne, length-set, arith, ltb, if◌then◌else◌, ltb→lt, ◌==◌,
  Bool-cases, inl, inr,
}
use petulant_wookie.Asgn2.Port.{CircBuffer, CircMacros, IsCirc, Port, buf_size, add_byte}

-- The `n` bytes from index `h` on.
abbrev pub window : List ℕ → ℕ → ℕ → List ℕ
window buf h zero = []
window buf h (suc n) = get_or buf h 0 ∷ window buf ((h + 1) % buf_size) n

-- How many bytes are waiting, and which.
abbrev pub waiting : CircBuffer → ℕ
waiting c = (c.tail + buf_size - c.head) % buf_size

abbrev pub contents : CircBuffer → List ℕ
contents c = window c.buf c.head (waiting c)

pub record IsValid (c : CircBuffer) : Type 0 where
  pub cells : length c.buf ≡ buf_size
  pub head_in : c.head < buf_size
  pub tail_in : c.tail < buf_size

-- Writing the cell just past a window leaves the window.
window-set_out :
    (buf : List ℕ) (i v n h : ℕ)
    → h < buf_size
    → n < buf_size
    → i ≡ (h + n) % buf_size
    → window (set buf i v) h n ≡ window buf h n
window-set_out buf i v zero h hh hn e = refl
window-set_out buf i v (suc n) h hh hn e =
    ap₂ ◌∷◌ (get_or-set_ne buf i h v 0 (omega arith))
      (window-set_out buf i v n ((h + 1) % buf_size) (omega arith) (omega arith) (omega arith))

-- With that cell the window is longer by what was written.
window-set_end :
    (buf : List ℕ) (i v n h : ℕ)
    → length buf ≡ buf_size
    → h < buf_size
    → n < buf_size
    → i ≡ (h + n) % buf_size
    → window (set buf i v) h (suc n) ≡ window buf h n ++ (v ∷ [])
window-set_end buf i v zero h len hh hn e =
    let here : i ≡ h = omega arith in
    ap (λ t. t ∷ [])
      (ap (λ t. get_or (set buf i v) t 0) (sym here) ∙ get_or-set_self buf i v 0 (omega arith))
window-set_end buf i v (suc n) h len hh hn e =
    ap₂ ◌∷◌ (get_or-set_ne buf i h v 0 (omega arith))
      (window-set_end buf i v n ((h + 1) % buf_size) len (omega arith) (omega arith) (omega arith))

length-window : (buf : List ℕ) (h n : ℕ) → length (window buf h n) ≡ n
length-window buf h zero = refl
length-window buf h (suc n) = ap suc (length-window buf ((h + 1) % buf_size) n)

pub length-contents : (c : CircBuffer) → length (contents c) ≡ waiting c
length-contents c = length-window c.buf c.head (waiting c)

-- The queue that the buffer implements: at most 1023 bytes, and a byte that does not fit is lost.
unfoldable pub enqueue : List ℕ → ℕ → List ℕ
enqueue q byte = if ltb (length q) (buf_size - 1) then q ++ (byte ∷ []) else q

module _ (m : CircMacros) (im : IsCirc m) (byte : ℕ) (p : Port) (v : IsValid p.circ) where
  room :
      m.circ_space p.circ.tail p.circ.head buf_size
      ≡ (p.circ.head + buf_size - 1 - p.circ.tail) % buf_size
  room = im.space p.circ.tail p.circ.head v.tail_in v.head_in

  pub add_byte-IsValid : IsValid (add_byte m byte p).circ
  unfolding add_byte
  add_byte-IsValid = ground (arith, length-set p.circ.buf p.circ.tail byte)

  added :
      waiting p.circ < buf_size - 1
      → window
          (set p.circ.buf p.circ.tail byte)
          p.circ.head
          (((p.circ.tail + 1) % buf_size + buf_size - p.circ.head) % buf_size)
        ≡ contents p.circ ++ (byte ∷ [])
  added h =
      let longer : suc (waiting p.circ)
          ≡ ((p.circ.tail + 1) % buf_size + buf_size - p.circ.head) % buf_size =
        omega arith in
      ap (window (set p.circ.buf p.circ.tail byte) p.circ.head) (sym longer)
      ∙ window-set_end p.circ.buf p.circ.tail byte (waiting p.circ) p.circ.head v.cells v.head_in
          (omega arith) (omega arith)

  dropped : window (set p.circ.buf p.circ.tail byte) p.circ.head (waiting p.circ) ≡ contents p.circ
  dropped =
      window-set_out p.circ.buf p.circ.tail byte (waiting p.circ) p.circ.head v.head_in
        (omega arith) (omega arith)

  -- The handler's test is the queue's.
  test_room :
      ltb 0 (m.circ_space p.circ.tail p.circ.head buf_size)
      ≡ ltb (length (contents p.circ)) (buf_size - 1)
  test_room = ground (arith, room, length-contents p.circ)

  pub add_byte-enqueue : contents (add_byte m byte p).circ ≡ enqueue (contents p.circ) byte
  unfolding add_byte enqueue
  add_byte-enqueue = elim (Bool-cases (ltb (length (contents p.circ)) (buf_size - 1))) [
    | inl e ↦
        let h : waiting p.circ < buf_size - 1 =
          omega
            (arith, length-contents p.circ, ltb→lt (length (contents p.circ)) (buf_size - 1) e) in
        rw (test_room, e) (added h)
    | inr e ↦ elim (Bool-cases (byte == 0)) [
      | inl zero_byte ↦ rw (test_room, e, zero_byte) dropped
      | inr other ↦ rw (test_room, e, other)
    ]
  ]
