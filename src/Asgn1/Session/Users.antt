-- ===== src/Asgn1/Session/Users.antt =====
-- Opens, releases and ioctls of the device of asgn1/asgn1.c.
use petulant_wookie.Base.{
  ℕ, ◌+◌, ◌*◌, ◌<◌, ◌≡◌, refl, ◌∙◌, ap, ap₂, sym, subst, [], length, AllLength, take, concat, Bool,
  true, false, ◌==◌, if◌then◌else◌, leb, leb_ℤ, pos, pos_part, ◌+ℤ◌, ◌-ℤ◌, wrap_int, wrap_int_inc,
  wrap_int_dec, dec_lt, arith, inl, inr,
}
use petulant_wookie.Asgn1.Device.{
  Device, IsValid, acc_mode, o_wronly, free_memory_pages, is_full, enter, asgn1_open, asgn1_release,
}
use petulant_wookie.Asgn1.Device.Free.{free_memory_pages-procs, free_memory_pages-empty}
use petulant_wookie.Asgn1.Control.{IoctlKernel, asgn1_ioctl}
use petulant_wookie.Asgn1.Control.Ioctl.{ioctl-Outcomes}
use petulant_wookie.Asgn1.File.{
  opens, releases, controls, File, enters, is_turned_away, leaves, sets_limit, refuses,
}
use petulant_wookie.Asgn1.Session.{ReadsInt, Abstracts, Simulates}

free_memory_pages-IsValid : (page_size : ℕ) (d : Device) → IsValid page_size (free_memory_pages d)
free_memory_pages-IsValid page_size d =
    let (mem, pages, size) = free_memory_pages-empty d in
    record {
      counted = pages ∙ sym (ap length mem);
      whole = subst (AllLength page_size) (sym mem) tt;
      within = omega (arith, size);
      fits =
          let none_left : (free_memory_pages d).num_pages * page_size ≡ 0 =
            ap (λ n. n * page_size) pages ∙ omega arith in
          omega (arith, none_left);
    }

module _ (page_size : ℕ) (d : Device) (s : File) (a : Abstracts page_size d s) where
  pub simulates_release : 0 < pos_part d.nprocs → Simulates page_size s releases (asgn1_release d).1
  unfolding asgn1_release
  simulates_release h =
      let some_users : 0 < s.users = omega (arith, ap pos_part a.users) in
      (
        _,
        leaves some_users,
        record {
          valid = record {
            counted = a.valid.counted;
            whole = a.valid.whole;
            within = a.valid.within;
            fits = a.valid.fits;
          };
          bytes = a.bytes;
          users =
              ap (λ t. wrap_int (t -ℤ pos 1)) a.users ∙ wrap_int_dec s.users some_users a.few_users;
          limit = a.limit;
          few_users = omega (arith, a.few_users);
          small_limit = a.small_limit;
        },
      )

  -- The test of `asgn1_open`.
  is_full-leb : is_full d ≡ leb s.limit s.users
  is_full-leb = ap₂ leb_ℤ a.limit a.users ∙ ground arith

  -- The device with one more process.
  abbrev opened : Device
  opened = record d { nprocs = wrap_int (d.nprocs +ℤ pos 1) }

  one_more : s.users < s.limit → wrap_int (d.nprocs +ℤ pos 1) ≡ pos (s.users + 1)
  one_more h =
      ap (λ t. wrap_int (t +ℤ pos 1)) a.users ∙ wrap_int_inc s.users (omega (arith, a.small_limit))

  entered :
      (write_only : Bool)
      → s.users < s.limit
      → Abstracts page_size
          (if write_only
            then free_memory_pages (record d { nprocs = wrap_int (d.nprocs +ℤ pos 1) })
            else record d { nprocs = wrap_int (d.nprocs +ℤ pos 1) })
          (record s { bytes = if write_only then [] else s.bytes; users = s.users + 1 })
  entered true h =
      let d1 : Device = record d { nprocs = wrap_int (d.nprocs +ℤ pos 1) } in
      let (mem, pages, size) = free_memory_pages-empty d1 in
      let (procs, most) = free_memory_pages-procs d1 in
      record {
        valid = free_memory_pages-IsValid page_size d1;
        bytes = sym (ap₂ (λ n l. take n (concat l)) size mem);
        users = procs ∙ one_more h;
        limit = most ∙ a.limit;
        few_users = omega (arith, a.small_limit);
        small_limit = a.small_limit;
      }
  entered false h = record {
    valid = record {
      counted = a.valid.counted;
      whole = a.valid.whole;
      within = a.valid.within;
      fits = a.valid.fits;
    };
    bytes = a.bytes;
    users = one_more h;
    limit = a.limit;
    few_users = omega (arith, a.small_limit);
    small_limit = a.small_limit;
  }

  pub simulates_open :
      (f_flags : ℕ)
      → Simulates page_size s
          (opens (acc_mode f_flags == o_wronly) (asgn1_open f_flags d).0)
          (asgn1_open f_flags d).1
  unfolding asgn1_open enter
  simulates_open f_flags = elim (dec_lt s.users s.limit) [
    | yes h ↦
        let vacant : is_full d ≡ false = is_full-leb ∙ ground arith in
        rw vacant
          (_, enters (acc_mode f_flags == o_wronly) h, entered (acc_mode f_flags == o_wronly) h)
    | no h ↦
        let full : is_full d ≡ true = is_full-leb ∙ ground arith in
        rw full (_, is_turned_away (acc_mode f_flags == o_wronly) (omega arith), a)
  ]

  pub simulates_ioctl :
      (k : IoctlKernel) (cmd arg : ℕ)
      → ReadsInt k
      → Simulates page_size s (controls (asgn1_ioctl k cmd arg d).0) (asgn1_ioctl k cmd arg d).1
  simulates_ioctl k cmd arg ints = elim (ioctl-Outcomes k cmd arg d) [
    | inl (e, r) ↦ subst (λ x. Simulates page_size s (controls x.0) x.1) (sym r) (s, refuses e, a)
    | inr (n, u, some_procs, r) ↦
        subst (λ x. Simulates page_size s (controls x.0) x.1) (sym r)
          (
            _,
            sets_limit n some_procs (ints arg n u),
            record {
              valid = record {
                counted = a.valid.counted;
                whole = a.valid.whole;
                within = a.valid.within;
                fits = a.valid.fits;
              };
              bytes = a.bytes;
              users = a.users;
              limit = refl;
              few_users = a.few_users;
              small_limit = ints arg n u;
            },
          )
  ]
