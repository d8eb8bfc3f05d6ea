-- ===== src/Base/Modular.antt =====
-- Positions in pages: quotients and remainders by a variable page size.
use Prim.Native.Nat.{ℕ, zero, suc, ◌+◌, ◌%◌, ◌≤◌, ◌<◌}
use mathlib.Core.Path.{◌≡◌, ◌∙◌, ap, sym}
use native.Mathlib.Omega.{arith}
use native.Mathlib.Nat.{mod-eq_of_lt, mod_self, mod-add-mod}

-- Moving on inside a page moves the offset on.
pub mod-add_within : (a d m : ℕ) → a % m + d < m → (a + d) % m ≡ a % m + d
mod-add_within a d m h = sym (mod-add-mod a m d) ∙ mod-eq_of_lt h

-- Moving on to the end of a page leads to offset 0.
pub mod-add_to_end : (a d m : ℕ) → a % m + d ≡ m → (a + d) % m ≡ 0
mod-add_to_end a d m h = sym (mod-add-mod a m d) ∙ ap (λ k. k % m) h ∙ mod_self m

-- After `a` bytes of `a + l` that fit in a page from `off` on, with `l > 0` left: the offset is
-- `off + a`, and what is left still fits.
pub next_offset :
    (m off a l pos : ℕ) → off + (a + l) ≤ m → pos % m ≡ off → 0 < l → (pos + a) % m ≡ off + a
next_offset m off a l pos h e left = mod-add_within pos a m (omega arith) ∙ ap (λ t. t + a) e

pub next_room :
    (m off' off a l : ℕ) → off + (a + l) ≤ m → off' < m → (0 < l → off' ≡ off + a) → off' + l ≤ m
next_room m off' off a zero h below at = omega arith
next_room m off' off a (suc l) h below at = omega (arith, at (omega arith))
