-- ===== src/Lab4/Proc.antt =====
-- Lab4/4.3/proc.c: a parameter that is read and written through /proc.
pub mod Parameter
use petulant_wookie.Base.{
  ℕ, ◌+◌, ◌≡◌, List, [], ◌∷◌, ◌++◌, Option, none, some, Bool, true, false, not, ◌||◌, ◌==◌,
  if◌then◌else◌, length, take, ℤ, pos, negsuc, to_int,
}
use petulant_wookie.Kernel.{Kernel, Run, done, overrun}
use petulant_wookie.Driver.{Call, acquire, release, proc_entry}
use petulant_wookie.Lab3.Seek.{Loading}

-- `sprintf(page, "%d\n", n)`, without the null character, and `sscanf(str, "%d", &n)`, by the bytes
-- from `str` on; `none` assigns nothing.
pub record Format : Type 0 where
  pub sprintf : ℤ → List ℕ
  pub sscanf : List ℕ → Option ℤ

-- What a read puts in the page, `*eof` and the result.
pub record Report : Type 0 where
  pub page : List ℕ
  pub eof : ℕ
  pub ret : ℤ

unfoldable pub my_proc_read : Format → ℤ → Report
my_proc_read f param = record {
  page = f.sprintf param;
  eof = 1;
  ret = to_int (length (f.sprintf param));
}

pub assigned : Option ℤ → ℤ → ℤ
assigned none param = param
assigned (some n) param = n

-- `my_proc_write(file, buffer, count, data)`: the result and `param`. `kmalloc` tells whether it gives
-- memory, of which `after` is what follows the `count` bytes: the copy has no null character at its
-- end. A null pointer and that of an empty block cannot be accessed.
unfoldable pub my_proc_write : Format → Kernel → Bool → List ℕ → List ℕ → ℕ → ℤ → Run (ℤ × ℤ)
unfolding assigned
my_proc_write f k kmalloc after buffer count param =
    if not kmalloc || count == 0
    then overrun
    else (if k.left 0 count == 0
        then done (to_int count, assigned (f.sscanf (take count buffer ++ after)) param)
        else done (negsuc 13, param))

-- `my_init`, with whether `create_proc_entry` gives an entry; `my_exit`, with whether `my_proc` is set.
unfoldable pub my_init : Bool → Loading
my_init create_proc_entry =
    if create_proc_entry
    then record { loaded = true; calls = acquire proc_entry ∷ [] }
    else record { loaded = false; calls = [] }

unfoldable pub my_exit : Bool → List Call
my_exit has_entry = if has_entry then release proc_entry ∷ [] else []
