-- ===== src/Drivers/KeyIrq.antt =====
-- iMX287Learn/cardet/doc/bk-ioint.c: the first driver with an interrupt, for one pin, from which
-- dev.c was made. The steps of its device are those of dev.c's cardet_dev_init.
use linuxapp.Common.Int.{is_negative, ℤ, pos}
use linuxapp.Common.{ℕ, ◌+◌, ◌-◌, true, false, if◌then◌else◌, List, [], ◌∷◌, ◌++◌, ◌≡◌, arith}
use linuxapp.Drivers.{
  KernelCall, cdev_del, device_destroy, class_destroy, unregister_chrdev_region, is_nonzero,
  Outcome, account, account_all, nothing,
}
use linuxapp.Drivers.CardetDev.{Answers, point_init, cardet_dev_init, point_exit}

-- KEY_GPIO
abbrev key_gpio : ℕ
key_gpio = 68

-- The use count of the module, which may go only at 0.
unfoldable key_irq_open : ℕ → ℤ × ℕ
key_irq_open count = (pos 0, count + 1)

unfoldable key_irq_release : ℕ → ℤ × ℕ
key_irq_release count = (pos 0, count - 1)

module _ (irq_of : ℕ → ℕ) where
  unfoldable key_irq_init : Answers → Outcome
  unfolding point_init cardet_dev_init
  key_irq_init a =
      let r = cardet_dev_init irq_of a in
      record { result = r.result; calls = point_init irq_of a key_gpio ++ r.calls }

  unfoldable key_irq_exit : List KernelCall
  unfolding point_exit
  key_irq_exit =
      point_exit irq_of key_gpio
      ++ cdev_del ∷ unregister_chrdev_region ∷ device_destroy ∷ class_destroy ∷ []

  -- Where every step succeeds the result is 0, and the exit gives all back, whether or not the pin
  -- and the interrupt were granted; where cdev_add fails, the result is the answer of the earlier
  -- call.
  key_irq_init_lem :
      (a : Answers)
      → is_negative a.region ≡ false
      → a.allocated ≡ true
      → a.made ≡ true
      → let r = key_irq_init a in
        if is_nonzero a.added
        then r.result ≡ a.region
        else (r.result ≡ pos 0) × (account_all (r.calls ++ key_irq_exit) nothing ≡ nothing)
  unfolding key_irq_init key_irq_exit account_all account
  key_irq_init_lem a h k m = ground arith
