-- ===== src/Asgn2/System/Receive.antt =====
-- `dummyport_interrupt` while the driver runs.
use Prim.Native.Nat.{bit_or}
use petulant_wookie.Base.{
  ℕ, ◌+◌, ◌-◌, ◌*◌, ◌%◌, ◌<◌, ◌≡◌, refl, ◌∙◌, ap, sym, subst, [], ◌∷◌, ◌++◌, append_assoc, length,
  length-append, true, false, ◌==◌, inl, inr, arith, lt→ltb, ltb,
}
use petulant_wookie.Asgn2.Port.{
  CircBuffer, CircMacros, IsCirc, Port, buf_size, add_byte, dummyport_interrupt,
}
use petulant_wookie.Asgn2.Port.Fifo.{
  waiting, contents, length-contents, IsValid, enqueue, add_byte-IsValid, add_byte-enqueue,
}
use petulant_wookie.Asgn2.Port.Bytes.{add_byte-flag, bit_or_halves}
use petulant_wookie.Asgn2.Device.{State}
use petulant_wookie.Asgn2.Queue.Valid.{unread}
use petulant_wookie.Asgn2.System.{System, port, interrupted}
use petulant_wookie.Asgn2.System.Valid.{IsReadable, IsRunning}

with_circ :
    (page_size : ℕ) (s : State) (c : CircBuffer)
    → IsReadable page_size s
    → IsValid c
    → IsReadable page_size (record s { circ_buffer = c })
with_circ page_size s c r v = record {
  tail_page = r.tail_page;
  queue = record {
    counted = r.queue.counted;
    whole = r.queue.whole;
    tail = r.queue.tail;
    ends = r.queue.ends;
    offset = r.queue.offset;
    within = r.queue.within;
    fits = r.queue.fits;
    circ = v;
  };
  first = r.first;
  read_data = r.read_data;
  head_in = r.head_in;
  flag = r.flag;
  mark = r.mark;
  idle = r.idle;
}

first_half :
    (m : CircMacros) (nibble : ℕ) (s : System)
    → nibble < 16
    → s.sig_flag ≡ 1
    → interrupted m nibble s ≡ record s { half_byte = nibble * 16; sig_flag = 0 }
unfolding dummyport_interrupt
first_half m nibble s h e =
    let is_one : (s.sig_flag == 1) ≡ true = ground arith in
    let fits : nibble * 16 % 256 ≡ nibble * 16 = omega arith in rw is_one (rw fits refl)

-- The byte that the second half completes.
completed : CircMacros → ℕ → System → Port
completed m byte s = add_byte m byte (record (port s) { half_byte = byte; sig_flag = 1 })

second_half :
    (m : CircMacros) (hi nibble : ℕ) (s : System)
    → hi < 16
    → nibble < 16
    → s.sig_flag ≡ 0
    → s.half_byte ≡ hi * 16
    → let p = completed m (hi * 16 + nibble) s in
      interrupted m nibble s ≡ record s {
        state = record s.state { circ_buffer = p.circ };
        half_byte = p.half_byte;
        sig_flag = p.sig_flag;
        scheduled = p.scheduled;
        received = s.received ++ ((hi * 16 + nibble) ∷ []);
      }
unfolding dummyport_interrupt completed
second_half m hi nibble s h h' e e' =
    let not_one : (s.sig_flag == 1) ≡ false = ground arith in
    let high : hi * 16 % 256 ≡ hi * 16 = omega arith in
    let whole : bit_or (hi * 16) nibble ≡ hi * 16 + nibble =
      ap (λ x. bit_or x nibble) (sym high) ∙ bit_or_halves hi nibble h h' in
    rw not_one (rw e' (rw whole refl))

module _ (m : CircMacros) (im : IsCirc m) (page_size : ℕ) (s : System)
    (i : IsRunning page_size s) where
  completed-contents :
      (byte : ℕ)
      → waiting s.state.circ_buffer < buf_size - 1
      → contents (completed m byte s).circ ≡ contents s.state.circ_buffer ++ (byte ∷ [])
  unfolding completed enqueue
  completed-contents byte room =
      let fits : ltb (length (contents s.state.circ_buffer)) (buf_size - 1) ≡ true =
        lt→ltb (length (contents s.state.circ_buffer)) (buf_size - 1)
          (omega (arith, length-contents s.state.circ_buffer)) in
      add_byte-enqueue m im byte (record (port s) { half_byte = byte; sig_flag = 1 })
        i.readable.queue.circ
      ∙ rw fits

  completed-IsRunning :
      (byte : ℕ)
      → waiting s.state.circ_buffer < buf_size - 1
      → let p = completed m byte s in
        IsRunning page_size (record s {
          state = record s.state { circ_buffer = p.circ };
          half_byte = p.half_byte;
          sig_flag = p.sig_flag;
          scheduled = p.scheduled;
          received = s.received ++ (byte ∷ []);
        })
  unfolding completed
  completed-IsRunning byte room =
      let next = record (port s) { half_byte = byte; sig_flag = 1 } in
      let more = completed-contents byte room in
      let p = completed m byte s in
      record {
        readable =
            with_circ page_size s.state p.circ i.readable
              (add_byte-IsValid m im byte next i.readable.queue.circ);
        halves = inl (add_byte-flag m byte next);
        busy = λ b. omega (
          arith,
          length-contents p.circ,
          ap length more,
          length-append (contents s.state.circ_buffer) (byte ∷ []),
        );
        calm = i.calm;
        in_order =
            ap (λ c. s.given ++ (unread s.state ++ c)) more
            ∙ ap (λ l. s.given ++ l)
                (sym (append_assoc (unread s.state) (contents s.state.circ_buffer) (byte ∷ [])))
            ∙ sym
                (append_assoc s.given (unread s.state ++ contents s.state.circ_buffer) (byte ∷ []))
            ∙ ap (λ l. l ++ (byte ∷ [])) i.in_order;
      }

  pub interrupted-IsRunning :
      (nibble : ℕ)
      → nibble < 16
      → waiting s.state.circ_buffer < buf_size - 1
      → IsRunning page_size (interrupted m nibble s)
  interrupted-IsRunning nibble h room = elim i.halves [
    | inl first ↦ subst (IsRunning page_size) (sym (first_half m nibble s h first)) (record {
      readable = i.readable;
      halves = inr (refl, nibble, h, refl);
      busy = i.busy;
      calm = i.calm;
      in_order = i.in_order;
    })
    | inr (flag, hi, below, kept) ↦
        subst (IsRunning page_size) (sym (second_half m hi nibble s below h flag kept))
          (completed-IsRunning (hi * 16 + nibble) room)
  ]
