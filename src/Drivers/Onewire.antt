-- ===== src/Drivers/Onewire.antt =====
-- ok335xDriver/ds18b20/ds18b20.c: ds18b20_init and ds18b20_exit.
use linuxapp.Common.Int.{is_negative, ℤ, pos}
use linuxapp.Common.{
  ℕ, ◌==◌, Bool, if◌then◌else◌, Option, none, some, List, [], ◌∷◌, ◌++◌, ◌≡◌, arith,
}
use linuxapp.Drivers.{
  KernelCall, alloc_chrdev_region, register_chrdev_region, cdev_add, gpio_request, class_create,
  cdev_init, device_create, cdev_del, device_destroy, class_destroy, unregister_chrdev_region,
  is_nonzero, Outcome, account, account_all, nothing, left_after,
}
use linuxapp.Common.{true}

-- The answers of the calls.
pub record Answers : Type 0 where
  pub region : ℤ
  pub added : ℤ
  pub made : Bool
  pub pin : ℤ

-- W1GPIO, GPIO_TO_PIN(1,18)
abbrev pub w1_gpio : ℕ
w1_gpio = 50

-- The number of the device is asked for where `major` is 0, which it is at first.
abbrev pub numbers : ℕ → ℤ → List KernelCall
numbers major e = (if major == 0 then alloc_chrdev_region e else register_chrdev_region e) ∷ []

-- `none` where no class can be made: the code does not look at it and hands the error to
-- device_create for a class, and nothing is known of what follows.
unfoldable pub ds18b20_init : ℕ → Answers → Option Outcome
ds18b20_init major a =
    let before = numbers major a.region ++ cdev_init ∷ cdev_add a.added ∷ [] in
    if is_nonzero a.added
    then some
        (record { result = a.added; calls = before ++ cdev_del ∷ unregister_chrdev_region ∷ [] })
    else if a.made
    then some (record {
      result = pos 0;
      calls = before ++ class_create true ∷ device_create ∷ gpio_request w1_gpio a.pin ∷ [];
    })
    else none

unfoldable pub ds18b20_exit : List KernelCall
ds18b20_exit = cdev_del ∷ device_destroy ∷ class_destroy ∷ unregister_chrdev_region ∷ []

-- From nothing held: a start in which cdev_add fails returns its error and holds nothing at its
-- end, neither the number nor the device's object. Else, if a class can be made, the start returns
-- 0 whether or not a number could be had and the pin was granted, and the exit after it leaves just
-- the pin, if it was granted. If none can be made there is no outcome.
pub ds18b20_init_lem :
    (major : ℕ) (a : Answers)
    → if is_nonzero a.added
      then left_after [] (ds18b20_init major a) ≡ some (a.added, nothing)
      else left_after ds18b20_exit (ds18b20_init major a) ≡ (
          if a.made
          then some
              (pos 0, record nothing { pins = if is_negative a.pin then [] else w1_gpio ∷ [] })
          else none)
unfolding ds18b20_init ds18b20_exit account_all account
ds18b20_init_lem major a = ground arith
