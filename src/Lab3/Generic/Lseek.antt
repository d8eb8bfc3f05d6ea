-- ===== src/Lab3/Generic/Lseek.antt =====
-- Three functions that seek: `mycdrv_generic_lseek` and those of Lab3/3.1.3/seek.c and asgn1/asgn1.c.
use petulant_wookie.Base.{
  ℕ, ◌≡◌, refl, ◌∙◌, ap, sym, ◌||◌, ltb_ℤ, if◌then◌else◌, ℤ, pos, negsuc, pos_part, mul_size, arith,
  dec_lt, ◌⊎◌, inl, inr,
}
use petulant_wookie.Kernel.{Ret, ok, fail, einval}
use petulant_wookie.Asgn1.Device.{Device}
use petulant_wookie.Asgn1.Control.{
  Whence, seek_set, seek_cur, seek_end, other, test_position, clamp_position, asgn1_lseek,
}
use petulant_wookie.Lab3.Seek.{ramdisk_size, mycdrv_lseek}
use petulant_wookie.Lab3.Seek
use petulant_wookie.Lab3.Generic.{target, seek_target, bring_inside, settle, mycdrv_generic_lseek}

bring_inside-clamp_position : (size : ℕ) (t : ℤ) → bring_inside size t ≡ clamp_position size t
unfolding bring_inside clamp_position
bring_inside-clamp_position size (pos n) = ground arith
bring_inside-clamp_position size (negsuc n) = ground arith

settle-target :
    (size : ℕ) (f_pos t : ℤ)
    → settle size f_pos (target t) ≡ (ok (pos_part (clamp_position size t)), clamp_position size t)
unfolding settle
settle-target size f_pos t = ap (λ q. (ok (pos_part q), q)) (bring_inside-clamp_position size t)

-- The switches agree on the three cases that they have in common.
targets :
    (size : ℕ) (indeterminate f_pos offset : ℤ) (orig : Whence)
    → ¬ orig ≡ other
    → (seek_target size f_pos offset orig ≡ target (test_position size f_pos offset orig))
      × (Seek.seek_target size indeterminate f_pos offset orig
          ≡ test_position size f_pos offset orig)
unfolding seek_target test_position Seek.seek_target
targets size indeterminate f_pos offset seek_set h = (refl, refl)
targets size indeterminate f_pos offset seek_cur h = (refl, refl)
targets size indeterminate f_pos offset seek_end h = (refl, refl)
targets size indeterminate f_pos offset other h = absurd (h refl)

-- On a disk of pages as large as the ramdisk, mycdrv_generic_lseek with one of the three commands sets
-- the position that asgn1_lseek sets, and returns it, though it tests the two ends in the other order.
pub mycdrv_generic_lseek-asgn1_lseek :
    (page_size : ℕ) (d : Device) (f_pos offset : ℤ) (orig : Whence)
    → ¬ orig ≡ other
    → mul_size d.num_pages page_size ≡ ramdisk_size page_size
    → let q = asgn1_lseek page_size d f_pos offset orig in
      mycdrv_generic_lseek page_size f_pos offset orig ≡ (ok (pos_part q), q)
unfolding mycdrv_generic_lseek asgn1_lseek
mycdrv_generic_lseek-asgn1_lseek page_size d f_pos offset orig h e =
    let size = ramdisk_size page_size in
    ap (settle size f_pos) (targets size (pos 0) f_pos offset orig h).0
    ∙ settle-target size f_pos (test_position size f_pos offset orig)
    ∙ ap (λ n. let q = clamp_position n (test_position n f_pos offset orig) in (ok (pos_part q), q))
        (sym e)

-- What the function of seek.c does with a target, and what the generic one does.
abbrev Compared : ℕ → ℤ → ℤ → Type 0
Compared size f_pos t =
    let strict : Ret × ℤ =
      if ltb_ℤ t (pos 0) || ltb_ℤ (pos size) t
      then (fail einval, f_pos)
      else (ok (pos_part t), t) in
    let q = clamp_position size t in
    (strict ≡ (ok (pos_part q), q))
    ⊎ ((strict ≡ (fail einval, f_pos)) × ((q ≡ pos 0) ⊎ (q ≡ pos size)))

compare_targets : (size : ℕ) (f_pos t : ℤ) → Compared size f_pos t
unfolding clamp_position
compare_targets size f_pos (pos n) = elim (dec_lt size n) [
  | yes h ↦ inr (ground arith, inr (ground arith))
  | no h ↦ inl (ground arith)
]
compare_targets size f_pos (negsuc n) = inr (ground arith, inl (ground arith))

-- With one of the three commands, the function of seek.c either does what mycdrv_generic_lseek does,
-- or it returns -EINVAL and keeps the position where mycdrv_generic_lseek goes to one of the two ends.
mycdrv_lseek-mycdrv_generic_lseek :
    (page_size : ℕ) (indeterminate f_pos offset : ℤ) (orig : Whence)
    → ¬ orig ≡ other
    → let strict = mycdrv_lseek page_size indeterminate f_pos offset orig in
      let generic = mycdrv_generic_lseek page_size f_pos offset orig in
      (strict ≡ generic)
      ⊎ ((strict ≡ (fail einval, f_pos))
          × ((generic ≡ (ok 0, pos 0))
              ⊎ (generic ≡ (ok (ramdisk_size page_size), pos (ramdisk_size page_size)))))
unfolding mycdrv_generic_lseek mycdrv_lseek
mycdrv_lseek-mycdrv_generic_lseek page_size indeterminate f_pos offset orig h =
    let size = ramdisk_size page_size in
    let t = test_position size f_pos offset orig in
    let (e, e') = targets size indeterminate f_pos offset orig h in
    let generic : settle size f_pos (seek_target size f_pos offset orig)
        ≡ (ok (pos_part (clamp_position size t)), clamp_position size t) =
      ap (settle size f_pos) e ∙ settle-target size f_pos t in
    rw (e', generic)
      (elim (compare_targets size f_pos t) [
        | inl same ↦ inl same
        | inr (no_room, inl low) ↦ inr (no_room, inl (ap (λ q. (ok (pos_part q), q)) low))
        | inr (no_room, inr high) ↦ inr (no_room, inr (ap (λ q. (ok (pos_part q), q)) high))
      ])
