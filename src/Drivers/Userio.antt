-- ===== src/Drivers/Userio.antt =====
-- ok335xDriver/ioremap/userio.c: the driver of sixteen pins through mapped registers.
use linuxapp.Common.{
  ℕ, ◌+◌, ◌-◌, ◌*◌, ◌^◌, ◌==◌, u32, bit_and, bit_or, if◌then◌else◌, Bool, ◌&&◌, true, Option, none,
  some, List, [], ◌∷◌, ◌++◌, ◌≡◌, ◌<◌, ◌%◌, arith,
}
use linuxapp.Common.Int.{ℤ, pos, negsuc}
use linuxapp.Drivers.{
  KernelCall, cdev_add, class_create, cdev_init, device_create, cdev_del, device_destroy,
  class_destroy, unregister_chrdev_region, ioremap, iounmap, is_nonzero, Outcome, account,
  account_all, nothing, left_after,
}
use linuxapp.Common.Masks.{bit_and-lower_16, bit_or-upper_16}
use linuxapp.Drivers.Onewire.{Answers, numbers}

-- The three registers behind `oe`, `setdataout` and `dataout`, of 32 bits each.
pub record Registers : Type 0 where
  pub oe : ℕ
  pub setdataout : ℕ
  pub dataout : ℕ

-- `PIN(TEST_NO)`: the int 0x0000FFFF shifted by 16, as the unsigned long that it is combined with.
abbrev pub test_pins : ℕ
test_pins = u32 (0x0000FFFF * 2 ^ 16)

-- `~` on 32 bits.
abbrev pub complement : ℕ → ℕ
complement n = 0xFFFFFFFF - n

unfoldable userio_open : ℤ
userio_open = pos 0

unfoldable userio_release : ℤ
userio_release = pos 0

-- Nothing is read.
unfoldable userio_read : ℤ
userio_read = pos 0

-- `userio_write`, with `ubuf[0]`. The value is 0 in both branches.
unfoldable pub userio_write : ℕ → Registers → ℤ × Registers
userio_write first r = (
  pos 0,
  (if first == 0
      then record r { dataout = bit_and r.dataout (complement test_pins) }
      else record r { dataout = bit_or r.dataout test_pins }),
)

-- What userio_init does to the registers once it has mapped them.
unfoldable pub set_up : Registers → Registers
set_up r = record {
  oe = bit_and r.oe (complement test_pins);
  setdataout = bit_or r.setdataout test_pins;
  dataout = bit_and r.dataout (complement test_pins);
}

-- GPIO1
abbrev pub gpio1 : ℕ
gpio1 = 0x4804C000

-- By the answers of the calls, and whether all three registers can be mapped. `none` where no class
-- can be made or a register is not mapped: the code looks at neither, and uses the error for a
-- class or the register that is not there.
unfoldable pub userio_init : ℕ → Answers → Bool → Registers → Option (Outcome × Registers)
unfolding set_up
userio_init major a mapped r =
    let before = numbers major a.region ++ cdev_init ∷ cdev_add a.added ∷ [] in
    let mappings =
      class_create true
      ∷ device_create
      ∷ ioremap (gpio1 + 0x134)
      ∷ ioremap (gpio1 + 0x194)
      ∷ ioremap (gpio1 + 0x13C)
      ∷ [] in
    if is_nonzero a.added
    then some
        (record { result = a.added; calls = before ++ cdev_del ∷ unregister_chrdev_region ∷ [] }, r)
    else if a.made && mapped
    then some (record { result = pos 0; calls = before ++ mappings }, set_up r)
    else none

-- The start without the registers, and the registers alone.
abbrev pub start_of : Option (Outcome × Registers) → Option Outcome
start_of none = none
start_of (some (o, r)) = some o

abbrev pub registers_of : Option (Outcome × Registers) → Option Registers
registers_of none = none
registers_of (some (o, r)) = some r

-- `userio_exit`: `_gpio1_reg` is never assigned, so it is 0.
unfoldable pub userio_exit : List KernelCall
userio_exit = iounmap 0 ∷ cdev_del ∷ device_destroy ∷ class_destroy ∷ unregister_chrdev_region ∷ []

-- `userio_mmap`, by what remap_pfn_range answers.
unfoldable pub userio_mmap : ℤ → ℤ
userio_mmap e = if is_nonzero e then negsuc 5 else pos 0

-- From nothing held: a start in which cdev_add fails returns its error, holds nothing at its end,
-- neither the number nor the device's object, and leaves the registers alone. Else, if a class can
-- be made and the registers mapped, the start returns 0 whether or not a number could be had, and
-- the exit after it leaves just the three mappings; the registers are set up. If not, there is no
-- outcome.
pub userio_init_lem :
    (major : ℕ) (a : Answers) (mapped : Bool) (regs : Registers)
    → let r = userio_init major a mapped regs in
      if is_nonzero a.added
      then (left_after [] (start_of r) ≡ some (a.added, nothing)) × (registers_of r ≡ some regs)
      else (left_after userio_exit (start_of r) ≡ (
          if a.made && mapped
          then some (
            pos 0,
            record nothing { maps = (gpio1 + 0x13C) ∷ (gpio1 + 0x194) ∷ (gpio1 + 0x134) ∷ [] },
          )
          else none))
        × (registers_of r ≡ (if a.made && mapped then some (set_up regs) else none))
unfolding userio_init userio_exit account_all account
userio_init_lem major a mapped regs = ground arith

-- A write of any length: its value is 0, the sixteen upper pins take the first byte's level, and
-- the sixteen lower ones keep theirs.
userio_write_lem :
    (first : ℕ) (r : Registers)
    → r.dataout < 2 ^ 32
    → userio_write first r
      ≡ (pos 0, record r { dataout = (if first == 0 then 0 else 0xFFFF0000) + r.dataout % 65536 })
unfolding userio_write
userio_write_lem first r h = ground (arith, bit_and-lower_16 r.dataout, bit_or-upper_16 r.dataout h)
