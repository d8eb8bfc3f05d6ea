-- ===== src/Asgn1/File.antt =====
-- The specification of the device of asgn1/asgn1.c: a file of bytes that a number of processes have
-- open, without pages, nodes and offsets.
use petulant_wookie.Base.{
  ℕ, ◌+◌, ◌-◌, ◌≤◌, ◌<◌, ◌^◌, ◌≡◌, List, [], ◌∷◌, ◌++◌, length, take, drop, Bool, if◌then◌else◌,
}
use petulant_wookie.Kernel.{Ret, ok, fail, Errno, ebusy, enomem}

-- What passes between a process and the device in a call: arguments, results, and positions before
-- and after it.
pub data Event : Type 0 where
  opens : (write_only : Bool) → Ret → Event
  releases : Event
  reads : (count f_pos : ℕ) → Ret → List ℕ → (f_pos' : ℕ) → Event
  writes : (buf : List ℕ) → (f_pos : ℕ) → Ret → (f_pos' : ℕ) → Event
  controls : Ret → Event

pub record File : Type 0 where
  pub bytes : List ℕ
  pub users : ℕ
  pub limit : ℕ

-- `buf` in place of what is at the position, or after the end.
abbrev pub splice : ℕ → List ℕ → List ℕ → List ℕ
splice f_pos buf bytes = take f_pos bytes ++ (buf ++ drop (f_pos + length buf) bytes)

-- The bytes from the position on, as many as are asked for and are there.
abbrev pub at : ℕ → ℕ → List ℕ → List ℕ
at count f_pos bytes = take count (drop f_pos bytes)

-- One call. Bytes between the end of the file and a position past it are not specified.
pub data Does (s : File) : Event → File → Type 0 where
  enters :
      (write_only : Bool)
      → s.users < s.limit
      → Does s
          (opens write_only (ok 0))
          (record s { bytes = if write_only then [] else s.bytes; users = s.users + 1 })
  is_turned_away :
      (write_only : Bool) → s.limit ≤ s.users → Does s (opens write_only (fail ebusy)) s
  leaves : 0 < s.users → Does s releases (record s { users = s.users - 1 })
  gives :
      (count f_pos : ℕ)
      → Does s
          (reads count f_pos
            (ok (length (at count f_pos s.bytes)))
            (at count f_pos s.bytes)
            (f_pos + length (at count f_pos s.bytes)))
          s
  takes :
      (buf : List ℕ) (f_pos : ℕ)
      → f_pos ≤ length s.bytes
      → Does s
          (writes buf f_pos (ok (length buf)) (f_pos + length buf))
          (record s { bytes = splice f_pos buf s.bytes })
  takes_beyond :
      (buf gap : List ℕ) (f_pos : ℕ)
      → length s.bytes + length gap ≡ f_pos
      → Does s
          (writes buf f_pos (ok (length buf)) (f_pos + length buf))
          (record s { bytes = s.bytes ++ (gap ++ buf) })
  has_no_memory : (buf : List ℕ) (f_pos : ℕ) → Does s (writes buf f_pos (fail enomem) f_pos) s
  sets_limit : (n : ℕ) → 0 < n → n < 2 ^ 31 → Does s (controls (ok 0)) (record s { limit = n })
  refuses : (e : Errno) → Does s (controls (fail e)) s

-- Calls one after another, the last of the events first.
pub data History (s : File) : List Event → File → Type 0 where
  nothing : History s [] s
  call :
      {e : Event} {es : List Event} {t u : File}
      → History s es t
      → Does t e u
      → History s (e ∷ es) u
