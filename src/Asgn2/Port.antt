-- ===== src/Asgn2/Port.antt =====
-- asgn2/asgn_2.c: the circular buffer and the interrupt handler `dummyport_interrupt`.
pub mod Fifo
pub mod Bytes
use Prim.Native.Nat.{bit_or}
use petulant_wookie.Base.{
  ℕ, suc, ◌+◌, ◌-◌, ◌*◌, ◌%◌, ◌≤◌, ◌<◌, ◌≡◌, List, length, set, Bool, true, false, ltb, ◌==◌,
  if◌then◌else◌,
}

-- `BUF_SIZE`
abbrev pub buf_size : ℕ
buf_size = 1024

-- `circ_buffer_type`
pub record CircBuffer : Type 0 where
  pub buf : List ℕ
  pub head : ℕ
  pub tail : ℕ

-- The macros of linux/circ_buf.h: what is in a buffer that is filled at its first index and emptied
-- at the second, and what there is room for.
pub record CircMacros : Type 0 where
  pub circ_cnt : ℕ → ℕ → ℕ → ℕ
  pub circ_space : ℕ → ℕ → ℕ → ℕ

-- What their documentation says, at this size; one cell is always free.
pub record IsCirc (m : CircMacros) : Type 0 where
  pub cnt :
      (a b : ℕ)
      → a < buf_size
      → b < buf_size
      → m.circ_cnt a b buf_size ≡ (a + buf_size - b) % buf_size
  pub space :
      (a b : ℕ)
      → a < buf_size
      → b < buf_size
      → m.circ_space a b buf_size ≡ (b + buf_size - 1 - a) % buf_size

-- The buffer, the two static variables of the handler, and whether the tasklet was scheduled.
pub record Port : Type 0 where
  pub circ : CircBuffer
  pub half_byte : ℕ
  pub sig_flag : ℕ
  pub scheduled : Bool

-- The branch that adds a whole byte to the buffer.
pub add_byte : CircMacros → ℕ → Port → Port
add_byte m byte p =
    if ltb 0 (m.circ_space p.circ.tail p.circ.head buf_size)
    then record p {
      circ = record {
        buf = set p.circ.buf p.circ.tail byte;
        head = p.circ.head;
        tail = (p.circ.tail + 1) % buf_size;
      };
      scheduled = true;
    }
    else (if byte == 0
        then record p {
          circ = record {
            buf = set p.circ.buf p.circ.tail byte;
            head = p.circ.head;
            tail = p.circ.tail;
          };
        }
        else p)

-- `dummyport_interrupt`, with what `read_half_byte()` returned. Values of `u8` are below 256.
unfoldable pub dummyport_interrupt : CircMacros → ℕ → Port → Port
unfolding add_byte
dummyport_interrupt m nibble p =
    if p.sig_flag == 1
    then record p { half_byte = nibble * 16 % 256; sig_flag = 0 }
    else (let byte = bit_or p.half_byte nibble in
        add_byte m byte (record p { half_byte = byte; sig_flag = 1 }))
