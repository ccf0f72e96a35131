-- ===== src/Drivers/Leds.antt =====
-- 4412Drive/ledsTest/ledsDriver.c: an LED as a device, and what a run of its driver leaves.
use linuxapp.Common.Int.{is_negative, ℤ, pos}
use linuxapp.Common.{
  ℕ, suc, ◌==◌, leb, Bool, true, false, if◌then◌else◌, List, [], ◌∷◌, ◌++◌, map, ◌≡◌, refl, ap, ap₂,
  ◌∙◌, arith, replicate,
}
use linuxapp.Drivers.{
  KernelCall, gpio_request, gpio_set_value, gpio_config_output, misc_register, misc_deregister,
  platform_driver_register, platform_driver_unregister, Outcome, is_nonzero, Held, account_all,
  account, nothing,
}
use linuxapp.Drivers.Platform.{
  Event, start, end, probe, remove, shutdown, suspend, resume, open_node, release, ioctl, done,
  no_value, calls_of, results_of,
}

unfoldable pub leds_release : Outcome
leds_release = done

unfoldable pub leds_open : Outcome
leds_open = done

unfoldable pub leds_remove : Outcome
leds_remove = record { result = pos 0; calls = misc_deregister ∷ [] }

unfoldable pub leds_shutdown : List KernelCall
leds_shutdown = []

unfoldable pub leds_suspend : Outcome
leds_suspend = done

unfoldable pub leds_resume : Outcome
leds_resume = done

-- The answer is printed and not returned.
unfoldable pub leds_init : ℤ → Outcome
leds_init registered = record { result = pos 0; calls = platform_driver_register registered ∷ [] }

unfoldable pub leds_exit : List KernelCall
leds_exit = platform_driver_unregister ∷ []

-- `led` is EXYNOS4_GPL2(0), a number of the board's headers.
module _ (led : ℕ) where
  -- Both arguments are cut down to a bit; the second is then not used.
  unfoldable pub leds_ioctl : ℕ → ℕ → Outcome
  leds_ioctl cmd arg = record {
    result = pos 0;
    calls = gpio_set_value led (if leb 1 cmd then 1 else 0) ∷ [];
  }

  -- By the answers of gpio_request and of misc_register, the second of which is not looked at.
  unfoldable pub leds_probe : ℤ → ℤ → Outcome
  leds_probe requested registered =
      if is_negative requested
      then record { result = requested; calls = gpio_request led requested ∷ [] }
      else record {
        result = pos 0;
        calls =
            gpio_request led requested
            ∷ gpio_config_output led
            ∷ gpio_set_value led 0
            ∷ misc_register registered
            ∷ [];
      }

  -- The structures leds_driver and leds_ops, and the module's start and end.
  unfoldable pub leds_step : Event → Outcome
  unfolding leds_ioctl leds_probe leds_release leds_open leds_remove leds_shutdown leds_suspend
      leds_resume leds_init leds_exit
  leds_step (start registered) = leds_init registered
  leds_step end = no_value leds_exit
  leds_step (probe requested registered) = leds_probe requested registered
  leds_step remove = leds_remove
  leds_step shutdown = no_value leds_shutdown
  leds_step suspend = leds_suspend
  leds_step resume = leds_resume
  leds_step open_node = leds_open
  leds_step release = leds_release
  leds_step (ioctl cmd arg) = leds_ioctl cmd arg

-- The level of a pin after a call, and after several.
unfoldable pub level : ℕ → KernelCall → ℕ → ℕ
level pin (gpio_set_value n x) v = if n == pin then x else v
level pin _ v = v

unfoldable pub level_after : ℕ → List KernelCall → ℕ → ℕ
unfolding level
level_after pin [] v = v
level_after pin (c ∷ calls) v = level_after pin calls (level pin c v)

-- What a user can say of a run: how often the pin was granted, whether the device and the driver
-- are registered, and whether the LED is on.
pub record View : Type 0 where
  pub grants : ℕ
  pub node : Bool
  pub driver : Bool
  pub lit : Bool

unfoldable pub view_step : Event → View → View
view_step (start registered) v = record v {
  driver = if is_nonzero registered then v.driver else true;
}
view_step end v = record v { driver = false }
view_step (probe requested registered) v = if is_negative requested then v else record v {
  grants = suc v.grants;
  node = if is_nonzero registered then v.node else true;
  lit = false;
}
view_step remove v = record v { node = false }
view_step (ioctl cmd arg) v = record v { lit = leb 1 cmd }
view_step _ v = v

unfoldable pub view : List Event → View → View
unfolding view_step
view [] v = v
view (e ∷ events) v = view events (view_step e v)

-- Before any event.
abbrev pub unused : View
unused = record { grants = 0; node = false; driver = false; lit = false }

-- The value of each event.
unfoldable pub answer : Event → ℤ
answer (probe requested registered) = if is_negative requested then requested else pos 0
answer _ = pos 0

abbrev bit : Bool → ℕ
bit lit = if lit then 1 else 0

account_all-append :
    (cs ds : List KernelCall) (h : Held)
    → account_all (cs ++ ds) h ≡ account_all ds (account_all cs h)
unfolding account_all
account_all-append [] ds h = refl
account_all-append (c ∷ cs) ds h = account_all-append cs ds (account c h)

module _ (led : ℕ) where
  -- What is held, by the view.
  abbrev pub held_of : View → Held
  held_of v = record nothing { pins = replicate v.grants led; misc = v.node; driver = v.driver }

  level_after-append :
      (cs ds : List KernelCall) (l : ℕ)
      → level_after led (cs ++ ds) l ≡ level_after led ds (level_after led cs l)
  unfolding level_after
  level_after-append [] ds l = refl
  level_after-append (c ∷ cs) ds l = level_after-append cs ds (level led c l)

  account-step :
      (e : Event) (v : View)
      → account_all (leds_step led e).calls (held_of v) ≡ held_of (view_step e v)
  unfolding leds_step view_step account_all account
  account-step e v = ground arith

  level-step :
      (e : Event) (v : View)
      → level_after led (leds_step led e).calls (bit v.lit) ≡ bit (view_step e v).lit
  unfolding leds_step view_step level_after level
  level-step e v = ground arith

  run_from :
      (events : List Event) (v : View)
      → let calls = calls_of (leds_step led) events in
        (account_all calls (held_of v) ≡ held_of (view events v))
        × (level_after led calls (bit v.lit) ≡ bit (view events v).lit)
  unfolding calls_of view account_all level_after
  run_from [] v = (refl, refl)
  run_from (e ∷ events) v =
      let later = calls_of (leds_step led) events in
      let (held, lit) = run_from events (view_step e v) in
      (
        account_all-append (leds_step led e).calls later (held_of v)
            ∙ ap (account_all later) (account-step e v)
            ∙ held,
        level_after-append (leds_step led e).calls later (bit v.lit)
            ∙ ap (level_after led later) (level-step e v)
            ∙ lit,
      )

  answers_lem : (events : List Event) → results_of (leds_step led) events ≡ map answer events
  unfolding results_of answer leds_step leds_probe
  answers_lem [] = refl
  answers_lem (e ∷ events) = ap₂ (◌∷◌) (first e) (answers_lem events)
    where
      first : (e : Event) → (leds_step led e).result ≡ answer e
      first e = ground arith

  -- In every run of the driver, in any order of its start and end, the platform's calls and those
  -- on the node, the driver refines the user's view: what it holds is the pin as often as it was
  -- granted, which no event takes back, the device, if it was registered after the last remove, and
  -- itself; the pin is high exactly if the last granted probe or command left the LED on; and every
  -- value is 0 but that of a refused probe.
  pub leds_step_lem :
      (events : List Event)
      → let v = view events unused in
        let calls = calls_of (leds_step led) events in
        (account_all calls nothing
          ≡ record nothing { pins = replicate v.grants led; misc = v.node; driver = v.driver })
        × (level_after led calls 0 ≡ (if v.lit then 1 else 0))
        × (results_of (leds_step led) events ≡ map answer events)
  leds_step_lem events = let (held, lit) = run_from events unused in (held, lit, answers_lem events)
