-- ===== src/Asgn2/Port/Bytes.antt =====
-- `dummyport_interrupt`: two half bytes make a byte of the queue.
use Prim.Native.Nat.{bit_or}
use petulant_wookie.Base.{
  ℕ, zero, suc, ◌+◌, ◌-◌, ◌*◌, ◌/◌, ◌%◌, ◌<◌, ◌≡◌, refl, ◌∙◌, ap, sym, subst, List, [], ◌∷◌, ◌++◌,
  length, take, take-nil, dec_lt, length-append, append-nil, append_assoc, arith, Bool, true, ◌==◌,
  lt→ltb, if◌then◌else◌, false, le→ltb_false,
}
use petulant_wookie.Asgn2.Port.{CircMacros, IsCirc, Port, buf_size, add_byte, dummyport_interrupt}
use petulant_wookie.Asgn2.Port.Fifo.{IsValid, contents, enqueue, add_byte-IsValid, add_byte-enqueue}

-- For the most significant half byte `hi`: both ways to join it to `lo`.
joined : ℕ → ℕ → ℕ
joined hi lo = bit_or (hi * 16 % 256) lo

-- They agree on the `bound` first values of `lo`, and do so for the `rows` first values of `hi`.
row_agrees : ℕ → ℕ → Bool
row_agrees hi zero = true
row_agrees hi (suc bound) =
    let rest = row_agrees hi bound in if joined hi bound == hi * 16 + bound then rest else false

table_agrees : ℕ → Bool
table_agrees zero = true
table_agrees (suc rows) = let rest = table_agrees rows in if row_agrees rows 16 then rest else false

table_agrees_holds : table_agrees 16 ≡ true
unfolding table_agrees row_agrees joined
table_agrees_holds = refl

row_at : (hi bound lo : ℕ) → lo < bound → row_agrees hi bound ≡ true → joined hi lo ≡ hi * 16 + lo
unfolding row_agrees
row_at hi zero lo below h = absurd (omega arith)
row_at hi (suc bound) lo below h = elim (dec_lt lo bound) [
  | yes b ↦ row_at hi bound lo b (ground arith)
  | no b ↦
      let last : lo ≡ bound = omega arith in
      let at_bound : joined hi bound ≡ hi * 16 + bound = ground arith in
      subst (λ x. joined hi x ≡ hi * 16 + x) (sym last) at_bound
]

table_at : (rows hi : ℕ) → hi < rows → table_agrees rows ≡ true → row_agrees hi 16 ≡ true
unfolding table_agrees
table_at zero hi below h = absurd (omega arith)
table_at (suc rows) hi below h = elim (dec_lt hi rows) [
  | yes b ↦ table_at rows hi b (ground arith)
  | no b ↦
      let last : hi ≡ rows = omega arith in
      let at_rows : row_agrees rows 16 ≡ true = ground arith in
      subst (λ x. row_agrees x 16 ≡ true) (sym last) at_rows
]

-- The two half bytes, the most significant first.
pub bit_or_halves : (hi lo : ℕ) → hi < 16 → lo < 16 → bit_or (hi * 16 % 256) lo ≡ hi * 16 + lo
unfolding joined
bit_or_halves hi lo h h' = row_at hi 16 lo h' (table_at 16 hi h table_agrees_holds)

-- A half byte is expected next, and it is the most significant one of a new byte.
pub record IsBetween (p : Port) : Type 0 where
  pub valid : IsValid p.circ
  pub first : p.sig_flag ≡ 1

pub add_byte-flag :
    (m : CircMacros) (byte : ℕ) (p : Port) → (add_byte m byte p).sig_flag ≡ p.sig_flag
unfolding add_byte
add_byte-flag m byte p = ground arith

-- The interrupts for the half bytes of a list of bytes.
pub receive : CircMacros → List ℕ → Port → Port
receive m [] p = p
receive m (b ∷ bs) p =
    receive m bs (dummyport_interrupt m (b % 16) (dummyport_interrupt m (b / 16) p))

abbrev pub AllBytes : List ℕ → Type 0
AllBytes [] = Unit
AllBytes (b ∷ bs) = (b < 256) × AllBytes bs

second_half :
    (m : CircMacros) (b : ℕ) (p : Port)
    → b < 256
    → p.sig_flag ≡ 1
    → dummyport_interrupt m (b % 16) (dummyport_interrupt m (b / 16) p)
      ≡ add_byte m b (record p { half_byte = b; sig_flag = 1 })
unfolding dummyport_interrupt
second_half m b p h e =
    let first : (p.sig_flag == 1) ≡ true = ground arith in
    let whole : bit_or (b / 16 * 16 % 256) (b % 16) ≡ b =
      bit_or_halves (b / 16) (b % 16) (omega arith) (omega arith)
      ∙ (let r : b / 16 * 16 + b % 16 ≡ b = omega arith in r) in
    rw first (rw whole)

two_halves :
    (m : CircMacros) (b : ℕ) (p : Port)
    → IsCirc m
    → b < 256
    → IsBetween p
    → let p' = dummyport_interrupt m (b % 16) (dummyport_interrupt m (b / 16) p) in
      (contents p'.circ ≡ enqueue (contents p.circ) b) × IsBetween p'
two_halves m b p im h i = (
  ap (λ q. contents q.circ) halves ∙ add_byte-enqueue m im b next valid,
  record {
    valid = subst (λ q. IsValid q.circ) (sym halves) (add_byte-IsValid m im b next valid);
    first = ap (λ q. q.sig_flag) halves ∙ add_byte-flag m b next;
  },
)
  where
    next : Port
    next = record p { half_byte = b; sig_flag = 1 }

    valid : IsValid next.circ
    valid = i.valid

    halves : dummyport_interrupt m (b % 16) (dummyport_interrupt m (b / 16) p) ≡ add_byte m b next
    halves = second_half m b p h i.first

enqueue-append :
    (q bs : List ℕ) (b : ℕ)
    → enqueue q b ++ take (buf_size - 1 - length (enqueue q b)) bs
      ≡ q ++ take (buf_size - 1 - length q) (b ∷ bs)
unfolding enqueue
enqueue-append q bs b = elim (dec_lt (length q) (buf_size - 1)) [
  | yes h ↦
      let rest = buf_size - 1 - length (q ++ (b ∷ [])) in
      let more : suc rest ≡ buf_size - 1 - length q = omega (arith, length-append q (b ∷ [])) in
      rw (lt→ltb (length q) (buf_size - 1) h)
        (append_assoc q (b ∷ []) (take rest bs) ∙ ap (λ k. q ++ take k (b ∷ bs)) more)
  | no h ↦
      let full : buf_size - 1 - length q ≡ 0 = omega arith in
      rw (le→ltb_false (length q) (buf_size - 1) (omega arith))
        (ap (λ k. q ++ take k bs) full ∙ sym (ap (λ k. q ++ take k (b ∷ bs)) full))
]

-- On interrupts for the half bytes of a list of bytes, the most significant half of each first, the
-- buffer's queue grows by those bytes in order until it holds 1023, and the rest are lost, zero bytes
-- too. Afterwards the buffer is valid and a new byte is expected.
pub receive_lem :
    (m : CircMacros) (bs : List ℕ) (p : Port)
    → IsCirc m
    → AllBytes bs
    → IsBetween p
    → (contents (receive m bs p).circ
        ≡ contents p.circ ++ take (buf_size - 1 - length (contents p.circ)) bs)
      × IsBetween (receive m bs p)
unfolding receive
receive_lem m [] p im all i = (
  sym (
      ap (λ t. contents p.circ ++ t) (take-nil (buf_size - 1 - length (contents p.circ)))
      ∙ append-nil (contents p.circ)),
  i,
)
receive_lem m (b ∷ bs) p im all i =
    let (e, i') = two_halves m b p im all.0 i in
    let p' = dummyport_interrupt m (b % 16) (dummyport_interrupt m (b / 16) p) in
    let (e', i'') = receive_lem m bs p' im all.1 i' in
    (
      e'
          ∙ ap (λ q. q ++ take (buf_size - 1 - length q) bs) e
          ∙ enqueue-append (contents p.circ) bs b,
      i'',
    )
