-- ===== src/Lab3/Seek/Session.antt =====
-- A process with the device of Lab3/3.1.3/seek.c open: its calls in any order, and what it reads back.
use petulant_wookie.Base.{
  ℕ, ◌+◌, ◌-◌, ◌≤◌, ◌≡◌, refl, ◌∙◌, ap, sym, subst, List, ◌||◌, ltb_ℤ, if◌then◌else◌, length,
  length-take, take, drop, take-drop-overwrite_append, replicate, overwrite, length-overwrite, ℤ,
  pos, negsuc, pos_part, arith, dec_lt,
}
use petulant_wookie.Kernel.{Kernel, IsKernel, done, Ret, ok, fail, einval}
use petulant_wookie.Asgn1.Control.{Whence, seek_set}
use petulant_wookie.Lab3.Seek.{
  ramdisk_size, Ramdisk, Transfer, padded, mycdrv_read, mycdrv_write, seek_target, mycdrv_lseek,
}
use petulant_wookie.Lab3.Seek.Copy.{IsRamdisk, wanted, copied, mycdrv_read_lem, mycdrv_write_lem}

size_lem :
    (page_size : ℕ) (ramdisk : Ramdisk)
    → IsRamdisk page_size ramdisk
    → ramdisk_size page_size ≡ length ramdisk
size_lem page_size ramdisk r = omega (arith, r.size, r.small)

-- The position after the two tests of `mycdrv_lseek`.
accept : ℕ → ℕ → ℤ → Ret × ℤ
accept size p testpos =
    if ltb_ℤ testpos (pos 0) || ltb_ℤ (pos size) testpos
    then (fail einval, pos p)
    else (ok (pos_part testpos), testpos)

accept_inside :
    (size p : ℕ) (t : ℤ) → p ≤ size → (q : ℕ) × ((accept size p t).1 ≡ pos q) × (q ≤ size)
unfolding accept
accept_inside size p (pos n) h = elim (dec_lt size n) [
  | yes l ↦ (p, ground arith, h)
  | no l ↦ (n, ground arith, omega arith)
]
accept_inside size p (negsuc n) h = (p, ground arith, h)

pub mycdrv_lseek_inside :
    (page_size : ℕ) (ramdisk : Ramdisk) (indeterminate offset : ℤ) (orig : Whence) (p : ℕ)
    → IsRamdisk page_size ramdisk
    → p ≤ length ramdisk
    → (q : ℕ) × ((mycdrv_lseek page_size indeterminate (pos p) offset orig).1 ≡ pos q)
      × (q ≤ length ramdisk)
unfolding mycdrv_lseek accept
mycdrv_lseek_inside page_size ramdisk indeterminate offset orig p r h =
    subst
      (λ n.
        (q : ℕ) × ((mycdrv_lseek page_size indeterminate (pos p) offset orig).1 ≡ pos q) × (q ≤ n))
      (size_lem page_size ramdisk r)
      (accept_inside (ramdisk_size page_size) p
        (seek_target (ramdisk_size page_size) indeterminate (pos p) offset orig)
        (omega (arith, size_lem page_size ramdisk r)))

-- The ramdisk and the position of an open file.
pub record Session : Type 0 where
  pub ramdisk : Ramdisk
  pub f_pos : ℤ

-- One call, with the file's own position.
pub data Step (page_size : ℕ) (s : Session) : Session → Type 0 where
  reads :
      (k : Kernel) (lbuf : ℕ) (t : Transfer)
      → IsKernel k
      → k.page_size ≡ page_size
      → mycdrv_read k s.ramdisk lbuf s.f_pos ≡ done t
      → Step page_size s (record s { f_pos = t.f_pos })
  writes :
      (k : Kernel) (buf : List ℕ) (lbuf : ℕ) (t : Transfer)
      → IsKernel k
      → k.page_size ≡ page_size
      → mycdrv_write k s.ramdisk buf lbuf s.f_pos ≡ done t
      → Step page_size s (record { ramdisk = t.bytes; f_pos = t.f_pos })
  seeks :
      (indeterminate offset : ℤ) (orig : Whence)
      → Step page_size s
          (record s { f_pos = (mycdrv_lseek page_size indeterminate s.f_pos offset orig).1 })

-- The file is opened at position 0.
pub data Reach (page_size : ℕ) (ramdisk : Ramdisk) : Session → Type 0 where
  start : Reach page_size ramdisk (record { ramdisk = ramdisk; f_pos = pos 0 })
  later :
      {s t : Session} → Reach page_size ramdisk s → Step page_size s t → Reach page_size ramdisk t

-- The position lies in the ramdisk, its end included.
pub record InRamdisk (page_size : ℕ) (s : Session) : Type 0 where
  pub place : ℕ
  pub at : s.f_pos ≡ pos place
  pub inside : place ≤ length s.ramdisk
  pub whole : IsRamdisk page_size s.ramdisk

done_inj : {t u : Transfer} → done t ≡ done u → t ≡ u
done_inj e = cc

same_size :
    (page_size page_size' : ℕ) (ramdisk : Ramdisk)
    → page_size' ≡ page_size
    → IsRamdisk page_size ramdisk
    → IsRamdisk page_size' ramdisk
same_size page_size page_size' ramdisk e r = subst (λ n. IsRamdisk n ramdisk) (sym e) r

module _ (page_size : ℕ) (k : Kernel) (ik : IsKernel k) (e : k.page_size ≡ page_size) (s : Session)
    (i : InRamdisk page_size s) where
  r : IsRamdisk k.page_size s.ramdisk
  r = same_size page_size k.page_size s.ramdisk e i.whole

  pub read_here :
      (lbuf : ℕ)
      → let n = copied k (wanted s.ramdisk lbuf i.place) in
        mycdrv_read k s.ramdisk lbuf s.f_pos
        ≡ done (record {
          nbytes = pos n;
          f_pos = pos (i.place + n);
          bytes = take n (drop i.place s.ramdisk);
        })
  read_here lbuf =
      ap (mycdrv_read k s.ramdisk lbuf) i.at
      ∙ mycdrv_read_lem k ik s.ramdisk r lbuf i.place i.inside

  pub write_here :
      (buf : List ℕ) (lbuf : ℕ)
      → let asked = wanted s.ramdisk lbuf i.place in
        let n = copied k asked in
        mycdrv_write k s.ramdisk buf lbuf s.f_pos
        ≡ done (record {
          nbytes = pos n;
          f_pos = pos (i.place + n);
          bytes = overwrite i.place (padded asked n buf) s.ramdisk;
        })
  write_here buf lbuf =
      ap (mycdrv_write k s.ramdisk buf lbuf) i.at
      ∙ mycdrv_write_lem k ik s.ramdisk r buf lbuf i.place i.inside

Step-InRamdisk :
    {page_size : ℕ} {s t : Session}
    → Step page_size s t
    → InRamdisk page_size s
    → InRamdisk page_size t
Step-InRamdisk {page_size} {s} (reads k lbuf t ik e run) i =
    let f = ap (λ u. u.f_pos) (done_inj (sym run ∙ read_here page_size k ik e s i lbuf)) in
    record {
      place = i.place + copied k (wanted s.ramdisk lbuf i.place);
      at = f;
      inside = omega (arith, i.inside);
      whole = i.whole;
    }
Step-InRamdisk {page_size} {s} (writes k buf lbuf t ik e run) i =
    let same = done_inj (sym run ∙ write_here page_size k ik e s i buf lbuf) in
    let asked = wanted s.ramdisk lbuf i.place in
    let n = copied k asked in
    let long : length t.bytes ≡ length s.ramdisk =
      ap (λ u. length u.bytes) same ∙ length-overwrite i.place (padded asked n buf) s.ramdisk in
    record {
      place = i.place + n;
      at = ap (λ u. u.f_pos) same;
      inside = omega (arith, i.inside, long);
      whole = record { size = long ∙ i.whole.size; small = i.whole.small };
    }
Step-InRamdisk {page_size} {s} (seeks indeterminate offset orig) i =
    let (q, e, h) =
      mycdrv_lseek_inside page_size s.ramdisk indeterminate offset orig i.place i.whole i.inside in
    record {
      place = q;
      at = ap (λ p. (mycdrv_lseek page_size indeterminate p offset orig).1) i.at ∙ e;
      inside = h;
      whole = i.whole;
    }

-- In a file that is opened on a ramdisk, after any reads, writes and seeks, whatever their arguments
-- and however much of each is copied, the position lies in the ramdisk, and the next read and the next
-- write stay in it too.
pub Reach-InRamdisk :
    {page_size : ℕ} {ramdisk : Ramdisk} {s : Session} (k : Kernel) (buf : List ℕ) (lbuf : ℕ)
    → IsRamdisk page_size ramdisk
    → IsKernel k
    → k.page_size ≡ page_size
    → Reach page_size ramdisk s
    → InRamdisk page_size s
      × ((t : Transfer) × (mycdrv_read k s.ramdisk lbuf s.f_pos ≡ done t))
      × ((t : Transfer) × (mycdrv_write k s.ramdisk buf lbuf s.f_pos ≡ done t))
Reach-InRamdisk {page_size} {ramdisk} {s} k buf lbuf whole ik e r =
    let i = keep r in
    (i, (_, read_here page_size k ik e s i lbuf), (_, write_here page_size k ik e s i buf lbuf))
  where
    keep : {t : Session} → Reach page_size ramdisk t → InRamdisk page_size t
    keep start = record { place = 0; at = refl; inside = omega arith; whole = whole }
    keep (later q st) = Step-InRamdisk st (keep q)

-- After a write of a buffer at a position of the ramdisk, however much of it is copied, and a seek
-- back to that position, a complete read of as many bytes as were written gives those bytes of the
-- buffer, and leaves the position where the write left it.
pub mycdrv_read-mycdrv_write :
    (wk rk : Kernel) (ramdisk : Ramdisk) (buf : List ℕ) (p : ℕ) (indeterminate : ℤ)
    → IsKernel wk
    → IsKernel rk
    → rk.page_size ≡ wk.page_size
    → IsRamdisk wk.page_size ramdisk
    → p ≤ length ramdisk
    → ((n : ℕ) → rk.left 0 n ≡ 0)
    → let n = copied wk (wanted ramdisk (length buf) p) in
      (w : Transfer) × (mycdrv_write wk ramdisk buf (length buf) (pos p) ≡ done w)
      × (mycdrv_lseek wk.page_size indeterminate w.f_pos (pos p) seek_set ≡ (ok p, pos p))
      × (mycdrv_read rk w.bytes n (pos p)
          ≡ done (record { nbytes = w.nbytes; f_pos = w.f_pos; bytes = take n buf }))
unfolding mycdrv_lseek seek_target padded
mycdrv_read-mycdrv_write wk rk ramdisk buf p indeterminate ikw ikr e r h complete =
    let asked = wanted ramdisk (length buf) p in
    let n = copied wk asked in
    let bytes = take n buf in
    let size = size_lem wk.page_size ramdisk r in
    let disk = overwrite p (padded asked n buf) ramdisk in
    let long : length disk ≡ length ramdisk = length-overwrite p (padded asked n buf) ramdisk in
    let r' : IsRamdisk rk.page_size disk =
      same_size wk.page_size rk.page_size disk e
        (record { size = long ∙ r.size; small = r.small }) in
    let len : length bytes ≡ n = omega (arith, length-take n buf) in
    let all : copied rk (wanted disk n p) ≡ n = omega (arith, complete (wanted disk n p), long) in
    let back : take n (drop p disk) ≡ bytes =
      ap (λ m. take m (drop p disk)) (sym len)
      ∙ take-drop-overwrite_append p bytes (replicate (asked - n) 0) ramdisk (omega (arith, len)) in
    (
      _,
      mycdrv_write_lem wk ikw ramdisk r buf (length buf) p h,
      ground arith,
      mycdrv_read_lem rk ikr disk r' n p (omega (arith, long))
          ∙ ap
              (λ m.
                done (record { nbytes = pos m; f_pos = pos (p + m); bytes = take m (drop p disk) }))
              all
          ∙ ap (λ b. done (record { nbytes = pos n; f_pos = pos (p + n); bytes = b })) back,
    )
