-- ===== src/Asgn2/Gpio.antt =====
-- asgn2/gpio.c: the pins of the dummy device, `setgpiofunc`,  `gpio_dummy_init` and `gpio_dummy_exit`.
pub mod Pins
pub mod Function
use Prim.Native.Nat.{bit_and, bit_or}
use petulant_wookie.Base.{
  ℕ, zero, suc, ◌-◌, ◌^◌, ltb, add_size, sub_size, mul_size, List, [], ◌∷◌, ◌++◌, Option, none,
  some, Bool, true, false, ◌==◌, if◌then◌else◌, ℤ, pos, negsuc, ltb_ℤ,
}
use petulant_wookie.Driver.{gpios, irq, Call, acquire, release, is_zero, acquired}

-- A bit of a word that is tested sets a bit of the result.
abbrev pub gather : ℕ → ℕ → ℕ → ℕ → ℕ
gather c pin bit r = if bit_and c (2 ^ pin) == 0 then r else bit_or r bit

-- `read_half_byte`, with the word that `gpio_inw` read.
unfoldable pub read_half_byte : ℕ → ℕ
read_half_byte c = gather c 24 8 (gather c 22 4 (gather c 17 2 (gather c 7 1 0)))

-- The words that `gpio_inw` reads and `gpio_outw` writes, by address.
abbrev pub Registers : Type 0
Registers = ℕ → ℕ

abbrev pub gpio_outw : ℕ → ℕ → Registers → Registers
gpio_outw addr word regs a = if a == addr then word else regs a

-- `while (func > 10)`, with fuel: `func` and `sel` after it.
pub select : ℕ → ℕ → ℕ → Option (ℕ × ℕ)
select zero func sel = if ltb 10 func then none else some (func, sel)
select (suc fuel) func sel =
    let later = select fuel (sub_size func 10) (add_size sel 1) in
    if ltb 10 func then later else some (func, sel)

-- The three bits from `shift` on, in words of 32 bits.
pub set_field : ℕ → ℕ → ℕ → ℕ
set_field word shift alt =
    bit_or (bit_and word (2 ^ 32 - 1 - mul_size 7 (2 ^ shift))) (mul_size alt (2 ^ shift))

-- From the loop's end on, with the address of the first register.
pub write_field : Registers → ℕ → ℕ → ℕ × ℕ → Registers
write_field regs base alt (func, sel) =
    let addr = add_size (mul_size sel 4) base in
    let shift = add_size func (mul_size func 2) in
    gpio_outw addr (set_field (regs addr) shift alt) regs

-- `setgpiofunc(func, alt)`: the registers.
unfoldable pub setgpiofunc : ℕ → Registers → ℕ → ℕ → ℕ → Option Registers
unfolding select set_field write_field
setgpiofunc fuel regs base func alt =
    if ltb 53 func
    then some regs
    else elim (select fuel func 0) [ none ↦ none | some r ↦ some (write_field regs base alt r) ]

-- The answers of `gpio_request_array`, `gpio_to_irq` and `request_irq`.
pub record GpioAnswers : Type 0 where
  pub gpio_request_array : ℤ
  pub gpio_to_irq : ℤ
  pub request_irq : ℤ

-- The result, `dummy_irq` where it was assigned, and the calls that were made, in order.
pub record Started : Type 0 where
  pub ret : ℤ
  pub dummy_irq : Option ℤ
  pub calls : List Call

-- The label `fail1` stands on the path of success too.
unfoldable pub gpio_dummy_init : GpioAnswers → Started
gpio_dummy_init a =
    if is_zero a.gpio_request_array
    then (if ltb_ℤ a.gpio_to_irq (pos 0)
        then record {
          ret = a.gpio_to_irq;
          dummy_irq = none;
          calls = acquire gpios ∷ release gpios ∷ [];
        }
        else record {
          ret = a.request_irq;
          dummy_irq = some a.gpio_to_irq;
          calls = acquire gpios ∷ (acquired (is_zero a.request_irq) irq ++ (release gpios ∷ []));
        })
    else record { ret = a.gpio_request_array; dummy_irq = none; calls = [] }

unfoldable pub gpio_dummy_exit : List Call
gpio_dummy_exit = release irq ∷ release gpios ∷ []
