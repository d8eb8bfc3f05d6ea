-- ===== src/Asgn2/Gpio/Pins.antt =====
-- `read_half_byte`: the half byte on the data pins.
use Prim.Native.Nat.{bit_and, bit_or}
use petulant_wookie.Base.{arith, ℕ, ◌+◌, ◌*◌, ◌^◌, ◌≡◌, Bool, ◌==◌, if◌then◌else◌}
use petulant_wookie.Asgn2.Gpio.{read_half_byte}

abbrev pub pin : ℕ → ℕ → ℕ
pin c n = if bit_and c (2 ^ n) == 0 then 0 else 1

collect : Bool → Bool → Bool → Bool → ℕ
collect p q r s =
    let step : Bool → ℕ → ℕ → ℕ = λ low bit acc. if low then acc else bit_or acc bit in
    step s 8 (step r 4 (step q 2 (step p 1 0)))

value : Bool → ℕ
value low = if low then 0 else 1

collect_lem : (p q r s : Bool) → collect p q r s ≡ value s * 8 + value r * 4 + value q * 2 + value p
unfolding collect value
collect_lem p q r s = ground arith

-- The half byte is the number with the pins 24, 22, 17 and 7 as its binary digits, the most
-- significant first.
pub read_half_byte_lem :
    (c : ℕ) → read_half_byte c ≡ pin c 24 * 8 + pin c 22 * 4 + pin c 17 * 2 + pin c 7
unfolding read_half_byte collect value
read_half_byte_lem c =
    collect_lem (bit_and c (2 ^ 7) == 0) (bit_and c (2 ^ 17) == 0) (bit_and c (2 ^ 22) == 0)
      (bit_and c (2 ^ 24) == 0)
