-- ===== src/Asgn1/Write/Correct.antt =====
-- `asgn1_write` against the device's bytes laid end to end.
use native.Mathlib.Nat.{div-add-mod'}
use petulant_wookie.Base.{
  ℕ, ◌+◌, ◌*◌, ◌/◌, ◌%◌, ◌≤◌, ◌<◌, ◌^◌, ◌≡◌, refl, ◌∙◌, ap, ap₂, sym, subst, List, ◌++◌, some,
  arith, length, concat, concat-append, length-concat, length-append, take-all, overwrite,
  AllLength, AllLength-append, max, add_size, pos, to_int,
}
use petulant_wookie.Kernel.{Kernel, IsKernel, Progresses, Supplies, Fails, ok, fail, enomem}
use petulant_wookie.Asgn1.Device.{Device, Page, IsValid}
use petulant_wookie.Asgn1.Read.Correct.{page_number}
use petulant_wookie.Asgn1.Write.{
  Growth, grown, out_of_memory, running, grow, Writing, write_pages, start_writing, Written,
  write_all, asgn1_write,
}
use petulant_wookie.Asgn1.Write.Copy.{advance}
use petulant_wookie.Asgn1.Write.Pages.{Stored, source, write_pages_lem}
use petulant_wookie.Asgn1.Write.Grow.{Linked, Grew, grow_lem}

-- The device after a write of `buf` at `f_pos`: still valid, its bytes those of before, and of some
-- new pages, with `buf` written over them at `f_pos`.
pub record Wrote (page_size : ℕ) (d : Device) (buf : List ℕ) (f_pos : ℕ) (d' : Device)
    : Type 0 where
  pub valid : IsValid page_size d'
  pub new : List Page
  pub bytes : concat d'.mem_list ≡ overwrite f_pos buf (concat d.mem_list ++ concat new)
  pub holds : f_pos + length buf ≤ length (concat d'.mem_list)
  pub size : d'.data_size ≡ max d.data_size (f_pos + length buf)
  pub same_procs : d'.nprocs ≡ d.nprocs
  pub same_max : d'.max_nprocs ≡ d.max_nprocs
  pub no_leak : d'.live_nodes + length d.mem_list ≡ d.live_nodes + length d'.mem_list

-- The device after a write that failed: still valid, with the data of before, and perhaps some new
-- pages at the end.
pub record Kept (page_size : ℕ) (d d' : Device) : Type 0 where
  pub valid : IsValid page_size d'
  pub new : List Page
  pub bytes : concat d'.mem_list ≡ concat d.mem_list ++ concat new
  pub size : d'.data_size ≡ d.data_size
  pub same_procs : d'.nprocs ≡ d.nprocs
  pub same_max : d'.max_nprocs ≡ d.max_nprocs

-- Success means that all of the buffer was written. The only failure is ENOMEM, after an allocation
-- that failed, and it leaves the position.
abbrev pub Outcome : Kernel → Device → List ℕ → ℕ → Written → Type 0
Outcome k d buf f_pos (ok n, d', f_pos') =
    (n ≡ length buf) × (f_pos' ≡ f_pos + length buf) × Wrote k.page_size d buf f_pos d'
Outcome k d buf f_pos (fail e, d', f_pos') =
    (e ≡ enomem) × (f_pos' ≡ f_pos) × Kept k.page_size d d' × (i : ℕ) × Fails (k.alloc i)

module _ (page_size leak : ℕ) (d d' : Device) (l : Linked page_size leak d d') where
  Linked-bytes : concat d'.mem_list ≡ concat d.mem_list ++ concat l.new
  Linked-bytes = ap concat l.list ∙ concat-append d.mem_list l.new

  Linked-IsValid : IsValid page_size d → d'.num_pages * page_size < 2 ^ 32 → IsValid page_size d'
  Linked-IsValid v fits = record {
    counted = omega (arith, v.counted, l.number, ap length l.list, length-append d.mem_list l.new);
    whole =
        subst (AllLength page_size) (sym l.list)
          (AllLength-append page_size d.mem_list l.new v.whole l.whole_new);
    within = let w = v.within in let n = l.number in let s = l.same_size in grind arith;
    fits = fits;
  }

  Linked-Kept : IsValid page_size d → d'.num_pages * page_size < 2 ^ 32 → Kept page_size d d'
  Linked-Kept v fits = record {
    valid = Linked-IsValid v fits;
    new = l.new;
    bytes = Linked-bytes;
    size = l.same_size;
    same_procs = l.same_procs;
    same_max = l.same_max;
  }

module _ (k : Kernel) (fuel : ℕ) (buf : List ℕ) (f_pos : ℕ) (ik : IsKernel k) (pr : Progresses k)
    (enough : k.page_size ≤ fuel) (small : length buf < 2 ^ 31)
    (room : f_pos + length buf + k.page_size < 2 ^ 32) where
  abbrev count : ℕ
  count = length buf

  abbrev written_device : Device → List Page → Device
  written_device d ps = record d { mem_list = ps; data_size = max d.data_size (f_pos + count) }

  write_all_ended :
      (d : Device) (ps : List Page) (w : Writing)
      → write_pages k buf fuel (pos (f_pos / k.page_size)) d.mem_list 0 (start_writing f_pos count)
        ≡ some (ps, w)
      → w.size_written ≡ 0 + count
      → w.f_pos ≡ f_pos + count
      → write_all k buf fuel d count f_pos ≡ some (ok count, written_device d ps, f_pos + count)
  unfolding write_all
  write_all_ended d ps w e e' e'' =
      let at : to_int (f_pos / k.page_size) ≡ pos (f_pos / k.page_size) =
        page_number k f_pos ik (omega arith) in
      let run =
        ap (λ b. write_pages k buf fuel b d.mem_list 0 (start_writing f_pos count)) at ∙ e in
      let size : add_size (f_pos % 2 ^ 32) w.size_written ≡ f_pos + count = omega arith in
      let all : w.size_written ≡ count = omega arith in
      rw (run, write_all)
        (λ i.
          some
            (ok (all i), record d { mem_list = ps; data_size = max d.data_size (size i) }, e'' i))

  source_all : source buf (start_writing f_pos count) ≡ buf
  source_all = take-all count buf (omega arith)

  -- With all pages there, the page loop writes the whole buffer.
  write_all_lem :
      (d d' : Device)
      → IsValid k.page_size d
      → IsValid k.page_size d'
      → (l : Linked k.page_size 0 d d') → f_pos + count ≤ d'.num_pages * k.page_size
      → (d'' : Device) × (write_all k buf fuel d' count f_pos ≡ some (ok count, d'', f_pos + count))
        × Wrote k.page_size d buf f_pos d''
  write_all_lem d d' v v' l h =
      let q = f_pos / k.page_size in
      let w = start_writing f_pos count in
      let bytes : length (concat d'.mem_list) ≡ d'.num_pages * k.page_size =
        length-concat k.page_size d'.mem_list v'.whole
        ∙ ap (λ t. t * k.page_size) (sym v'.counted) in
      let at : q * k.page_size + f_pos % k.page_size ≡ f_pos = div-add-mod' f_pos k.page_size in
      let s : Stored k buf fuel q 0 d'.mem_list w
          (overwrite (q * k.page_size + f_pos % k.page_size) (source buf w) (concat d'.mem_list)) =
        write_pages_lem k buf fuel ik pr enough q 0 q d'.mem_list w (omega arith) v'.whole
          (omega arith) (λ _. omega arith) in
      let e = write_all_ended d' s.ps' (advance count s.calls' w) s.ended refl refl in
      let shape : length (concat s.ps') ≡ d'.num_pages * k.page_size =
        length-concat k.page_size s.ps' s.whole'
        ∙ ap (λ t. t * k.page_size) (s.many' ∙ sym v'.counted) in
      (
        written_device d' s.ps',
        e,
        record {
          valid = record {
            counted = v'.counted ∙ sym s.many';
            whole = s.whole';
            within = let b = v'.within in omega arith;
            fits = v'.fits;
          };
          new = l.new;
          bytes =
              s.bytes'
              ∙ ap₂ (λ o t. overwrite o t (concat d'.mem_list)) at source_all
              ∙ ap (overwrite f_pos buf) (Linked-bytes k.page_size 0 d d' l);
          holds = omega arith;
          size = ap (λ t. max t (f_pos + count)) l.same_size;
          same_procs = l.same_procs;
          same_max = l.same_max;
          no_leak =
              omega (arith, l.nodes, s.many', ap length l.list, length-append d.mem_list l.new);
        },
      )

  target_eq : add_size (f_pos % 2 ^ 32) count ≡ f_pos + count
  target_eq = omega arith

  by_growth :
      (d : Device) (g : Growth)
      → IsValid k.page_size d
      → grow k fuel 0 (add_size (f_pos % 2 ^ 32) count) d ≡ g
      → Grew k (f_pos + count) d g
      → (r : Written) × (asgn1_write k fuel d buf count f_pos ≡ some r) × Outcome k d buf f_pos r
  unfolding asgn1_write
  by_growth d (grown d') v e (l, h, fits) =
      let (d'', run, wrote) =
        write_all_lem d d' v (Linked-IsValid k.page_size 0 d d' l v fits) l h in
      ((ok count, d'', f_pos + count), rw (e, asgn1_write) run, (refl, refl, wrote))
  by_growth d (out_of_memory d') v e (leak, one, l, i, bad, fits) = (
    (fail enomem, d', f_pos),
    rw (e, asgn1_write),
    (refl, refl, Linked-Kept k.page_size leak d d' l v fits, i, bad),
  )
  by_growth d running v e h = absurd h

-- Called on a valid device with a mapped buffer of less than 2^31 bytes that ends a page below 2^32,
-- with fuel for a page and for the bytes up to the end of the request, `asgn1_write` returns. Either
-- it has written the whole buffer: the bytes of the device, with those of the pages that it linked,
-- are overwritten by the buffer at the position and nowhere else, the data size and the position
-- cover it, and every node is in the list. Or an allocation failed, and it returned -ENOMEM: data
-- and position are as they were. In both cases the device is valid again, and the counts of
-- processes are as they were.
pub asgn1_write_lem :
    (k : Kernel) (fuel : ℕ) (d : Device) (buf : List ℕ) (f_pos : ℕ)
    → IsKernel k
    → Progresses k
    → k.page_size ≤ fuel
    → f_pos + length buf ≤ fuel
    → IsValid k.page_size d
    → length buf < 2 ^ 31
    → f_pos + length buf + k.page_size < 2 ^ 32
    → (r : Written) × (asgn1_write k fuel d buf (length buf) f_pos ≡ some r)
      × Outcome k d buf f_pos r
asgn1_write_lem k fuel d buf f_pos ik pr enough enough' v small room =
    let target = f_pos + length buf in
    let e = target_eq k fuel buf f_pos ik pr enough small room in
    by_growth k fuel buf f_pos ik pr enough small room d
      (grow k fuel 0 (add_size (f_pos % 2 ^ 32) (length buf)) d) v refl
      (subst (λ t. Grew k target d (grow k fuel 0 t d)) (sym e)
        (grow_lem k fuel 0 target d ik (omega arith) room v.fits))

-- With memory for the pages `asgn1_write` succeeds.
pub asgn1_write_supplied :
    (k : Kernel) (fuel : ℕ) (d : Device) (buf : List ℕ) (f_pos : ℕ)
    → IsKernel k
    → Progresses k
    → Supplies k
    → k.page_size ≤ fuel
    → f_pos + length buf ≤ fuel
    → IsValid k.page_size d
    → length buf < 2 ^ 31
    → f_pos + length buf + k.page_size < 2 ^ 32
    → (d' : Device) × (asgn1_write k fuel d buf (length buf) f_pos
        ≡ some (ok (length buf), d', f_pos + length buf))
      × Wrote k.page_size d buf f_pos d'
asgn1_write_supplied k fuel d buf f_pos ik pr su enough enough' v small room =
    let (r, e, out) = asgn1_write_lem k fuel d buf f_pos ik pr enough enough' v small room in
    succeed r e out
  where
    succeed :
        (r : Written)
        → asgn1_write k fuel d buf (length buf) f_pos ≡ some r
        → Outcome k d buf f_pos r
        → (d' : Device) × (asgn1_write k fuel d buf (length buf) f_pos
            ≡ some (ok (length buf), d', f_pos + length buf))
          × Wrote k.page_size d buf f_pos d'
    succeed (ok n, d', p) e (en, ep, wrote) = (d', e ∙ ap₂ (λ a b. some (ok a, d', b)) en ep, wrote)
    succeed (fail x, d', p) e (ee, ep, kept, i, bad) = absurd (su i bad)
