-- ===== src/Drivers/CardetDev.antt =====
-- iMX287Learn/cardet/driver/dev.c: the start and the end of the car detector's driver. Its two
-- points are the pins 68 and 69; `irq_of` stands for gpio_to_irq.
use linuxapp.Common.Int.{is_negative, ℤ, pos, negsuc}
use linuxapp.Common.{ℕ, Bool, true, false, if◌then◌else◌, not, List, [], ◌∷◌, ◌++◌, ◌≡◌, arith}
use linuxapp.Drivers.{
  KernelCall, alloc_chrdev_region, cdev_alloc, cdev_add, class_create, cdev_init, device_create,
  cdev_del, device_destroy, class_destroy, unregister_chrdev_region, gpio_free,
  gpio_direction_input, set_irq_type, gpio_request, request_irq, free_irq, enable_irq, disable_irq,
  is_nonzero, Outcome, Held, account, account_all, nothing,
}

-- The answers of the calls; `pin` and `irq` by the number asked for.
pub record Answers : Type 0 where
  pub pin : ℕ → ℤ
  pub irq : ℕ → ℤ
  pub region : ℤ
  pub allocated : Bool
  pub added : ℤ
  pub made : Bool

module _ (irq_of : ℕ → ℕ) where
  -- The inner loop's body of cardet_io_init; the interrupt's type is the falling edge for both
  -- points.
  unfoldable pub point_init : Answers → ℕ → List KernelCall
  point_init a n =
      gpio_free n
      ∷ gpio_request n (a.pin n)
      ∷ gpio_direction_input n
      ∷ request_irq (irq_of n) (a.irq (irq_of n))
      ∷ set_irq_type (irq_of n)
      ∷ disable_irq (irq_of n)
      ∷ enable_irq (irq_of n)
      ∷ []

  unfoldable pub cardet_io_init : Answers → List KernelCall
  unfolding point_init
  cardet_io_init a = point_init a 68 ++ point_init a 69

  -- `cardet_dev_init`. The label `error` returns `ret`, which is alloc_chrdev_region's answer.
  unfoldable pub cardet_dev_init : Answers → Outcome
  cardet_dev_init a =
      if is_negative a.region
      then record { result = negsuc 0; calls = alloc_chrdev_region a.region ∷ [] }
      else if a.allocated
      then (let added =
            alloc_chrdev_region a.region ∷ cdev_alloc true ∷ cdev_init ∷ cdev_add a.added ∷ [] in
          if is_nonzero a.added
          then record { result = a.region; calls = added ++ unregister_chrdev_region ∷ [] }
          else if a.made
          then record { result = pos 0; calls = added ++ class_create true ∷ device_create ∷ [] }
          else record { result = negsuc 0; calls = added ++ class_create false ∷ [] })
      else record {
        result = negsuc 0;
        calls = alloc_chrdev_region a.region ∷ cdev_alloc false ∷ [];
      }

  unfoldable pub cardet_irqdev_init : Answers → Outcome
  unfolding cardet_io_init cardet_dev_init
  cardet_irqdev_init a =
      let r = cardet_dev_init a in record { result = r.result; calls = cardet_io_init a ++ r.calls }

  unfoldable pub point_exit : ℕ → List KernelCall
  point_exit n = gpio_free n ∷ disable_irq (irq_of n) ∷ free_irq (irq_of n) ∷ []

  unfoldable pub cardet_irqdev_exit : List KernelCall
  unfolding point_exit
  cardet_irqdev_exit =
      point_exit 68
      ++ point_exit 69
      ++ cdev_del ∷ unregister_chrdev_region ∷ device_destroy ∷ class_destroy ∷ []

  -- The pins and the interrupts that were granted.
  abbrev pub granted : Answers → Held
  granted a = record nothing {
    pins =
        (if is_negative (a.pin 69) then [] else 69 ∷ [])
        ++ (if is_negative (a.pin 68) then [] else 68 ∷ []);
    irqs =
        (if is_nonzero (a.irq (irq_of 69)) then [] else irq_of 69 ∷ [])
        ++ (if is_nonzero (a.irq (irq_of 68)) then [] else irq_of 68 ∷ []);
  }

  -- Where every step of the device succeeds the result is 0, and the exit gives all back, whether
  -- or not pins and interrupts were granted. Every failure leaves the granted pins and interrupts
  -- held. The result is -1 and nothing else is held if no number can be had; -1 with the number if
  -- no device can be allocated; where cdev_add fails the number is given back but the device's
  -- object is not, and the result is the answer of the earlier call, which was not negative; and it
  -- is -1 with the number and the added device if no class can be made.
  pub cardet_irqdev_init_lem :
      (a : Answers)
      → let r = cardet_irqdev_init a in
        let held = account_all r.calls nothing in
        if is_negative a.region
        then (r.result ≡ negsuc 0) × (held ≡ granted a)
        else if not a.allocated
        then (r.result ≡ negsuc 0) × (held ≡ record (granted a) { region = true })
        else if is_nonzero a.added
        then (r.result ≡ a.region) × (held ≡ record (granted a) { object = true })
        else if a.made
        then (r.result ≡ pos 0) × (account_all (r.calls ++ cardet_irqdev_exit) nothing ≡ nothing)
        else (r.result ≡ negsuc 0)
          × (held ≡ record (granted a) { region = true; cdev = true; object = true })
  unfolding cardet_irqdev_init cardet_irqdev_exit account_all account
  cardet_irqdev_init_lem a = ground arith
