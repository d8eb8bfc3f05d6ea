-- ===== src/Asgn2/Gpio/Function.antt =====
-- `setgpiofunc` of asgn2/gpio.c: which field it sets.
use petulant_wookie.Base.{
  ℕ, zero, suc, ◌+◌, ◌-◌, ◌*◌, ◌/◌, ◌%◌, ◌≤◌, ◌<◌, ◌≡◌, ◌∙◌, ap, ap₂, some, false, ltb, lt→ltb,
  le→ltb_false, if◌then◌else◌, add_size, sub_size, mul_size, arith, dec_lt,
}
use petulant_wookie.Asgn2.Gpio.{Registers, gpio_outw, select, set_field, write_field, setgpiofunc}

select_stop : (fuel func sel : ℕ) → func ≤ 10 → select fuel func sel ≡ some (func, sel)
unfolding select
select_stop zero func sel h = ground arith
select_stop (suc fuel) func sel h = rw (le→ltb_false 10 func h)

select_small :
    (fuel func sel : ℕ)
    → func ≤ 10
    → 0 < func
    → select fuel func sel ≡ some ((func - 1) % 10 + 1, sel + (func - 1) / 10)
select_small fuel func sel h some_pin =
    select_stop fuel func sel h
    ∙ ap₂ (λ f s. some (f, s)) (let z : func ≡ (func - 1) % 10 + 1 = omega arith in z)
        (let z : sel ≡ sel + (func - 1) / 10 = omega arith in z)

select_round :
    (fuel func sel : ℕ)
    → 10 < func
    → func ≤ 53
    → sel ≤ 53
    → select (suc fuel) func sel ≡ select fuel (func - 10) (sel + 1)
unfolding select
select_round fuel func sel h few low = rw (lt→ltb 10 func h) (
    ap₂ (select fuel) (let z : sub_size func 10 ≡ func - 10 = omega arith in z)
      (let z : add_size sel 1 ≡ sel + 1 = omega arith in z))

-- For a positive pin the loop ends with a remainder from 1 to 10.
select_lem :
    (fuel func sel : ℕ)
    → func ≤ 10 * fuel + 10
    → sel + func ≤ 53
    → 0 < func
    → select fuel func sel ≡ some ((func - 1) % 10 + 1, sel + (func - 1) / 10)
select_lem zero func sel enough low some_pin = select_small zero func sel (omega arith) some_pin
select_lem (suc fuel) func sel enough low some_pin = elim (dec_lt 10 func) [
  | no h ↦ select_small (suc fuel) func sel (omega arith) some_pin
  | yes h ↦
      select_round fuel func sel h (omega arith) (omega arith)
      ∙ select_lem fuel (func - 10) (sel + 1) (omega arith) (omega arith) (omega arith)
      ∙ ap₂ (λ f s. some (f, s))
          (let z : (func - 10 - 1) % 10 + 1 ≡ (func - 1) % 10 + 1 = omega arith in z)
          (let z : sel + 1 + (func - 10 - 1) / 10 ≡ sel + (func - 1) / 10 = omega arith in z)
]

-- The registers after alternative `alt` is set in field `place` of register `reg`.
abbrev pub with_field : Registers → ℕ → ℕ → ℕ → ℕ → Registers
with_field regs base reg place alt =
    let addr = add_size (4 * reg) base in
    gpio_outw addr (set_field (regs addr) (3 * place) alt) regs

chosen :
    (fuel : ℕ) (regs : Registers) (base func alt reg place : ℕ)
    → func ≤ 53
    → select fuel func 0 ≡ some (place, reg)
    → place ≤ 10
    → reg ≤ 53
    → setgpiofunc fuel regs base func alt ≡ some (with_field regs base reg place alt)
unfolding setgpiofunc write_field
chosen fuel regs base func alt reg place few e low low' =
    let on : ltb 53 func ≡ false = le→ltb_false 53 func (omega arith) in
    let addr : mul_size reg 4 ≡ 4 * reg = omega arith in
    let shift : add_size place (mul_size place 2) ≡ 3 * place = omega arith in
    rw (on, e)
      (ap₂
        (λ a h.
          let addr = add_size a base in some (gpio_outw addr (set_field (regs addr) h alt) regs))
        addr shift)

unchanged :
    (fuel : ℕ) (regs : Registers) (base func alt : ℕ)
    → 53 < func
    → setgpiofunc fuel regs base func alt ≡ some regs
unfolding setgpiofunc
unchanged fuel regs base func alt h = rw (lt→ltb 53 func h)

-- With fuel for five rounds, whatever the pin: setgpiofunc changes nothing for a pin above 53, sets
-- field 0 of register 0 for pin 0, and for another pin n sets field (n - 1) % 10 + 1 of register
-- (n - 1) / 10, and no other register. For the pins 10, 20, 30, 40 and 50 that is field 10, past the
-- ten fields of the register before the pin's own.
pub setgpiofunc_lem :
    (fuel : ℕ) (regs : Registers) (base func alt : ℕ)
    → 5 ≤ fuel
    → setgpiofunc fuel regs base func alt
      ≡ some (
          if ltb 53 func
          then regs
          else (if ltb 0 func
              then with_field regs base ((func - 1) / 10) ((func - 1) % 10 + 1) alt
              else with_field regs base 0 0 alt))
setgpiofunc_lem fuel regs base func alt h = elim (dec_lt 53 func) [
  | yes big ↦ rw (lt→ltb 53 func big) (unchanged fuel regs base func alt big)
  | no few ↦ rw (le→ltb_false 53 func (omega arith)) (elim (dec_lt 0 func) [
    | yes some_pin ↦ rw (lt→ltb 0 func some_pin) (
        chosen fuel regs base func alt ((func - 1) / 10) ((func - 1) % 10 + 1) (omega arith)
          (select_lem fuel func 0 (omega arith) (omega arith) some_pin
            ∙ ap (λ q. some ((func - 1) % 10 + 1, q))
                (let z : 0 + (func - 1) / 10 ≡ (func - 1) / 10 = omega arith in z))
          (omega arith) (omega arith))
    | no zero_pin ↦ rw (le→ltb_false 0 func (omega arith)) (
        chosen fuel regs base func alt 0 0 (omega arith)
          (select_stop fuel func 0 (omega arith)
            ∙ ap (λ f. some (f, 0)) (let z : func ≡ 0 = omega arith in z))
          (omega arith) (omega arith))
  ])
]
