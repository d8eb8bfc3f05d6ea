-- ===== src/Asgn1/Session/Refines.antt =====
-- The device of asgn1/asgn1.c refines a file of bytes.
use petulant_wookie.Base.{ℕ, ◌-◌, ◌≡◌, refl, ◌∙◌, ap, sym, subst, List, [], some, min, arith}
use petulant_wookie.Asgn1.Device.{Device, IsValid}
use petulant_wookie.Asgn1.Read.Correct.{result, asgn1_read_lem}
use petulant_wookie.Asgn1.Write.Correct.{asgn1_write_lem}
use petulant_wookie.Asgn1.File.{Event, writes, File, History, nothing, call}
use petulant_wookie.Asgn1.Session.{
  Call, open_call, release_call, read_call, write_call, ioctl_call, Session, loaded, next,
  Abstracts, Simulates,
}
use petulant_wookie.Asgn1.Module.{reset}
use petulant_wookie.Asgn1.Session.Data.{simulates_read, simulates_write}
use petulant_wookie.Asgn1.Session.Users.{simulates_open, simulates_release, simulates_ioctl}

some_inj : {A : Type 0} {x y : A} → some x ≡ some y → x ≡ y
some_inj e = cc

-- Each call of a handler is a call on the file.
Call-Does :
    {page_size : ℕ} {d d' : Device} {e : Event} (s : File)
    → Abstracts page_size d s
    → Call page_size d e d'
    → Simulates page_size s e d'
Call-Does {page_size} {d} s a (open_call f_flags) = simulates_open page_size d s a f_flags
Call-Does {page_size} {d} s a (release_call h) = simulates_release page_size d s a h
Call-Does {page_size} {d} s a (read_call k fuel count f_pos r ik pr same enough small run) =
    let (c, e) =
      asgn1_read_lem k fuel d count f_pos ik pr (omega (arith, same))
        (subst (λ n. IsValid n d) (sym same) a.valid) small in
    let is : r ≡ result d f_pos (min count (d.data_size - f_pos)) c = some_inj (sym run ∙ e) in
    simulates_read page_size d s a count f_pos r (ap (λ x. x.buf) is) (ap (λ x. x.f_pos) is)
      (ap (λ x. x.size_read) is)
Call-Does {page_size} {d} s a
      (write_call k fuel f_pos f_pos' buf ret d' ik pr same enough enough' small room run) =
    let (r, e, out) =
      asgn1_write_lem k fuel d buf f_pos ik pr (omega (arith, same)) enough'
        (subst (λ n. IsValid n d) (sym same) a.valid) small (omega (arith, same, room)) in
    let is : r ≡ (ret, d', f_pos') = some_inj (sym e ∙ run) in
    subst (λ x. Simulates page_size s (writes buf f_pos x.0 x.2) x.1) is
      (simulates_write page_size d s a k buf f_pos r same out)
Call-Does {page_size} {d} s a (ioctl_call k cmd arg ints) =
    simulates_ioctl page_size d s a k cmd arg ints

-- The file that a newly loaded module stands for.
abbrev pub new_file : File
new_file = record { bytes = []; users = 0; limit = 1 }

reset-Abstracts : (page_size : ℕ) (d : Device) → Abstracts page_size (reset d) new_file
unfolding reset
reset-Abstracts page_size d = record {
  valid = record { counted = refl; whole = tt; within = omega arith; fits = omega arith };
  bytes = refl;
  users = refl;
  limit = refl;
  few_users = omega arith;
  small_limit = omega arith;
}

-- From the load of the module on, whatever processes open and release the device, read, write and set
-- its limit, in any order and at any positions: each call returns what the same call on one file of
-- bytes returns, with the same bytes and positions. The file is empty at first, for one process; an
-- open beyond the limit is turned away, one to write only empties the file, a read gives its bytes
-- from the position on, and a write splices the buffer in and keeps all else, or fails with -ENOMEM
-- and keeps everything. The device stays valid, and its bytes are the file's. The conditions are that
-- reads and writes have a mapped buffer of less than 2^31 bytes and fuel enough, that a write ends a
-- page below 2^32, that a release is by a process that has the device open, and that the limit read
-- from the user is an int.
pub Session-History :
    (d : Device) {page_size : ℕ} {d' : Device} {es : List Event}
    → Session page_size (reset d) es d'
    → (s : File) × History new_file es s × Abstracts page_size d' s
Session-History d loaded = (new_file, nothing, reset-Abstracts _ d)
Session-History d (next before c) =
    let (s, h, a) = Session-History d before in
    let (t, does, a') = Call-Does s a c in (t, call h does, a')
