-- ===== src/Drivers/Platform.antt =====
-- 4412Drive: the platform drivers devNodeRegister/devNodeReg.c and driverRegister/driverReg.c, and
-- simpleDriver/helloWorld.c; ledsTest/ledsDriver.c is in Leds. What the kernel and the programs ask
-- of such a driver is one type of events, in any order; what a driver prints is left out.
use linuxapp.Common.Int.{ℤ, pos}
use linuxapp.Common.{ℕ, List, [], ◌∷◌, ◌++◌}
use linuxapp.Drivers.{
  KernelCall, misc_register, misc_deregister, platform_driver_register, platform_driver_unregister,
  Outcome,
}

-- The start and the end of the module, the platform's calls and those on the device's node, with
-- the answers that the driver gets and the arguments of ioctl.
pub data Event : Type 0 where
  start : ℤ → Event
  end : Event
  probe : ℤ → ℤ → Event
  remove shutdown suspend resume open_node release : Event
  ioctl : ℕ → ℕ → Event

-- The value 0, and no call.
abbrev pub done : Outcome
done = record { result = pos 0; calls = [] }

unfoldable pub devnodereg_ioctl : ℕ → ℕ → Outcome
devnodereg_ioctl cmd arg = done

unfoldable pub devnodereg_release : Outcome
devnodereg_release = done

unfoldable pub devnodereg_open : Outcome
devnodereg_open = done

-- The answer of misc_register is not looked at.
unfoldable pub devnodereg_probe : ℤ → Outcome
devnodereg_probe registered = record { result = pos 0; calls = misc_register registered ∷ [] }

unfoldable pub devnodereg_remove : Outcome
devnodereg_remove = record { result = pos 0; calls = misc_deregister ∷ [] }

unfoldable pub devnodereg_shutdown : List KernelCall
devnodereg_shutdown = []

unfoldable pub devnodereg_suspend : Outcome
devnodereg_suspend = done

unfoldable pub devnodereg_resume : Outcome
devnodereg_resume = done

-- The answer of the registration is printed and not returned.
unfoldable pub devnodereg_init : ℤ → Outcome
devnodereg_init registered = record {
  result = pos 0;
  calls = platform_driver_register registered ∷ [];
}

unfoldable pub devnodereg_exit : List KernelCall
devnodereg_exit = platform_driver_unregister ∷ []

-- A function without a value gives the value 0 here.
abbrev pub no_value : List KernelCall → Outcome
no_value calls = record { result = pos 0; calls = calls }

-- The structures devnodereg_driver and devnodereg_ops, and the module's start and end: which event
-- comes to which function.
unfoldable pub devnodereg_step : Event → Outcome
unfolding devnodereg_ioctl devnodereg_release devnodereg_open devnodereg_probe devnodereg_remove
    devnodereg_shutdown devnodereg_suspend devnodereg_resume devnodereg_init devnodereg_exit
devnodereg_step (start registered) = devnodereg_init registered
devnodereg_step end = no_value devnodereg_exit
devnodereg_step (probe requested registered) = devnodereg_probe registered
devnodereg_step remove = devnodereg_remove
devnodereg_step shutdown = no_value devnodereg_shutdown
devnodereg_step suspend = devnodereg_suspend
devnodereg_step resume = devnodereg_resume
devnodereg_step open_node = devnodereg_open
devnodereg_step release = devnodereg_release
devnodereg_step (ioctl cmd arg) = devnodereg_ioctl cmd arg

unfoldable pub driverreg_probe : Outcome
driverreg_probe = done

unfoldable pub driverreg_remove : Outcome
driverreg_remove = done

unfoldable pub driverreg_shutdown : List KernelCall
driverreg_shutdown = []

unfoldable pub driverreg_suspend : Outcome
driverreg_suspend = done

unfoldable pub driverreg_resume : Outcome
driverreg_resume = done

unfoldable pub driverreg_init : ℤ → Outcome
driverreg_init registered = record {
  result = pos 0;
  calls = platform_driver_register registered ∷ [];
}

unfoldable pub driverreg_exit : List KernelCall
driverreg_exit = platform_driver_unregister ∷ []

-- `driverReg_driver`, with the module's start and end; it has no node.
unfoldable pub driverreg_step : Event → Outcome
unfolding driverreg_probe driverreg_remove driverreg_shutdown driverreg_suspend driverreg_resume
    driverreg_init driverreg_exit
driverreg_step (start registered) = driverreg_init registered
driverreg_step end = no_value driverreg_exit
driverreg_step (probe requested registered) = driverreg_probe
driverreg_step remove = driverreg_remove
driverreg_step shutdown = no_value driverreg_shutdown
driverreg_step suspend = driverreg_suspend
driverreg_step resume = driverreg_resume
driverreg_step _ = done

-- helloWorld.c: both functions only print.
unfoldable hello_init : ℤ
hello_init = pos 0

unfoldable hello_exit : List KernelCall
hello_exit = []

-- All calls of a driver in a run, in order, and its values.
unfoldable pub calls_of : (Event → Outcome) → List Event → List KernelCall
calls_of step [] = []
calls_of step (e ∷ events) = (step e).calls ++ calls_of step events

unfoldable pub results_of : (Event → Outcome) → List Event → List ℤ
results_of step [] = []
results_of step (e ∷ events) = (step e).result ∷ results_of step events
