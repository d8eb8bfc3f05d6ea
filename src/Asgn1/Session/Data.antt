-- ===== src/Asgn1/Session/Data.antt =====
-- Reads and writes of the device of asgn1/asgn1.c as reads and writes of a file.
use petulant_wookie.Base.{
  ℕ, ◌+◌, ◌-◌, ◌*◌, ◌≤◌, ◌≡◌, ◌∙◌, ap, ap₂, sym, subst, List, ◌++◌, length, length-append,
  length-take, length-drop, length-concat, length-overwrite, take, drop, concat, overwrite, min,
  max, dec_lt, arith,
}
use petulant_wookie.Kernel.{Kernel, ok, fail, enomem}
use petulant_wookie.Asgn1.Device.{Device, IsValid}
use petulant_wookie.Asgn1.Read.{Reading}
use petulant_wookie.Asgn1.Write.{Written}
use petulant_wookie.Asgn1.Write.Correct.{Wrote, Kept, Outcome}
use petulant_wookie.Asgn1.File.{
  reads, writes, File, splice, at, Does, gives, takes, takes_beyond, has_no_memory,
}
use petulant_wookie.Asgn1.Session.{Abstracts, Simulates}
use petulant_wookie.Asgn1.Session.Bytes.{at-take, take-append_short, splice_lem, beyond_lem}

module _ (page_size : ℕ) (d : Device) (s : File) (a : Abstracts page_size d s) where
  abbrev cells : List ℕ
  cells = concat d.mem_list

  length-cells : length (concat d.mem_list) ≡ d.num_pages * page_size
  length-cells =
      length-concat page_size d.mem_list a.valid.whole
      ∙ ap (λ n. n * page_size) (sym a.valid.counted)

  length-bytes : length s.bytes ≡ d.data_size
  length-bytes =
      ap length a.bytes
      ∙ length-take d.data_size (concat d.mem_list)
      ∙ (let w = a.valid.within in let c = length-cells in omega arith)

  read_bytes :
      (count f_pos : ℕ)
      → take (min count (d.data_size - f_pos)) (drop f_pos (concat d.mem_list))
        ≡ at count f_pos s.bytes
  read_bytes count f_pos =
      sym (ap (at count f_pos) a.bytes ∙ at-take count f_pos d.data_size (concat d.mem_list))

  given_length :
      (count f_pos : ℕ) → length (at count f_pos s.bytes) ≡ min count (d.data_size - f_pos)
  given_length count f_pos =
      omega (arith, length-take count (drop f_pos s.bytes), length-drop f_pos s.bytes, length-bytes)

  pub simulates_read :
      (count f_pos : ℕ) (r : Reading)
      → r.buf ≡ take (min count (d.data_size - f_pos)) (drop f_pos (concat d.mem_list))
      → r.f_pos ≡ f_pos + min count (d.data_size - f_pos)
      → r.size_read ≡ min count (d.data_size - f_pos)
      → Simulates page_size s (reads count f_pos (ok r.size_read) r.buf r.f_pos) d
  simulates_read count f_pos r bytes position number =
      let same = bytes ∙ read_bytes count f_pos in
      let place : r.f_pos ≡ f_pos + length (at count f_pos s.bytes) =
        position ∙ ap (λ n. f_pos + n) (sym (given_length count f_pos)) in
      let size : r.size_read ≡ length (at count f_pos s.bytes) =
        number ∙ sym (given_length count f_pos) in
      (
        s,
        subst (λ n. Does s (reads count f_pos (ok n) r.buf r.f_pos) s) (sym size)
            (subst (λ e. Does s e s)
              (ap₂ (reads count f_pos (ok (length (at count f_pos s.bytes)))) (sym same)
                (sym place))
              (gives count f_pos)),
        a,
      )

  -- The state after a call that leaves the counts of processes.
  same_users :
      (d' : Device) (bytes : List ℕ)
      → IsValid page_size d'
      → bytes ≡ take d'.data_size (concat d'.mem_list)
      → d'.nprocs ≡ d.nprocs
      → d'.max_nprocs ≡ d.max_nprocs
      → Abstracts page_size d' (record s { bytes = bytes })
  same_users d' bytes v e procs most = record {
    valid = v;
    bytes = e;
    users = procs ∙ a.users;
    limit = most ∙ a.limit;
    few_users = a.few_users;
    small_limit = a.small_limit;
  }

  more_pages : (extra : List ℕ) → take d.data_size (concat d.mem_list ++ extra) ≡ s.bytes
  more_pages extra =
      take-append_short d.data_size (concat d.mem_list) extra
        (let w = a.valid.within in let c = length-cells in omega arith)
      ∙ sym a.bytes

  module _ (buf : List ℕ) (f_pos : ℕ) (d' : Device) (wrote : Wrote page_size d buf f_pos d') where
    abbrev more : List ℕ
    more = concat d.mem_list ++ concat wrote.new

    room : f_pos + length buf ≤ length (concat d.mem_list ++ concat wrote.new)
    room = omega (
      arith,
      wrote.holds,
      ap length wrote.bytes,
      length-overwrite f_pos buf (concat d.mem_list ++ concat wrote.new),
    )

    seen :
        take d'.data_size (concat d'.mem_list)
        ≡ take
            (max d.data_size (f_pos + length buf))
            (overwrite f_pos buf (concat d.mem_list ++ concat wrote.new))
    seen = ap₂ take wrote.size wrote.bytes

    written : Simulates page_size s (writes buf f_pos (ok (length buf)) (f_pos + length buf)) d'
    written = elim (dec_lt d.data_size f_pos) [
      | no h ↦ (
        _,
        takes buf f_pos (omega (arith, length-bytes)),
        same_users d' (splice f_pos buf s.bytes) wrote.valid
            (sym (
              seen
              ∙ splice_lem f_pos d.data_size buf (concat d.mem_list ++ concat wrote.new) room
                  (omega arith)
                  (let w = a.valid.within in
                    let c = length-cells in
                    omega (arith, length-append (concat d.mem_list) (concat wrote.new)))
              ∙ ap (splice f_pos buf) (more_pages (concat wrote.new))))
            wrote.same_procs wrote.same_max,
      )
      | yes h ↦
          let gap =
            take (f_pos - d.data_size) (drop d.data_size (concat d.mem_list ++ concat wrote.new)) in
          (
            _,
            takes_beyond buf gap f_pos (
                omega (
                  arith,
                  length-bytes,
                  room,
                  length-take (f_pos - d.data_size)
                      (drop d.data_size (concat d.mem_list ++ concat wrote.new)),
                  length-drop d.data_size (concat d.mem_list ++ concat wrote.new),
                )),
            same_users d' (s.bytes ++ (gap ++ buf)) wrote.valid
                (sym (
                  seen
                  ∙ beyond_lem f_pos d.data_size buf (concat d.mem_list ++ concat wrote.new) room
                      (omega arith)
                  ∙ ap (λ xs. xs ++ (gap ++ buf)) (more_pages (concat wrote.new))))
                wrote.same_procs wrote.same_max,
          )
    ]

  failed :
      (buf : List ℕ) (f_pos : ℕ) (d' : Device)
      → Kept page_size d d'
      → Simulates page_size s (writes buf f_pos (fail enomem) f_pos) d'
  failed buf f_pos d' kept = (
    s,
    has_no_memory buf f_pos,
    same_users d' s.bytes kept.valid
        (sym (ap₂ take kept.size kept.bytes ∙ more_pages (concat kept.new))) kept.same_procs
        kept.same_max,
  )

  pub simulates_write :
      (k : Kernel) (buf : List ℕ) (f_pos : ℕ) (r : Written)
      → k.page_size ≡ page_size
      → Outcome k d buf f_pos r
      → Simulates page_size s (writes buf f_pos r.0 r.2) r.1
  simulates_write k buf f_pos (fail e, d', f_pos') same (ee, ep, kept, i, bad) =
      subst (λ x. Simulates page_size s x d')
        (ap₂ (λ x p. writes buf f_pos (fail x) p) (sym ee) (sym ep))
        (failed buf f_pos d' (subst (λ n. Kept n d d') same kept))
  simulates_write k buf f_pos (ok n, d', f_pos') same (en, ep, wrote) =
      subst (λ x. Simulates page_size s x d')
        (ap₂ (λ x p. writes buf f_pos (ok x) p) (sym en) (sym ep))
        (written buf f_pos d' (subst (λ n. Wrote n d buf f_pos d') same wrote))
