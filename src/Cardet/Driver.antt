-- ===== src/Cardet/Driver.antt =====
-- iMX287Learn/cardet/driver: config.h, the interrupt handlers of ISR.c and the file operations of
-- dev.c. `do_gettimeofday` and the outcome of the copies to and from user space are arguments.
use linuxapp.Common.{
  ℕ, Bool, if◌then◌else◌, ltb, length, take, Option, some, none, List, [], ◌++◌, drop, ◌+◌, ◌-◌,
}
use linuxapp.Common.Int.{ℤ, pos, negsuc}
use linuxapp.Common.Timeval.{Timeval, zero_time}

-- CHANNEL_MAX
abbrev pub channel_max : ℕ
channel_max = 1

-- `struct _XYPOINT` and `struct _TIMESIGN`
pub record XyPoint : Type 0 where
  pub risingedge : Timeval
  pub fallingedge : Timeval

pub record TimeSign : Type 0 where
  pub xp : XyPoint
  pub yp : XyPoint

abbrev pub zero_point : XyPoint
zero_point = record { risingedge = zero_time; fallingedge = zero_time }

abbrev pub zero_sign : TimeSign
zero_sign = record { xp = zero_point; yp = zero_point }

-- The handlers stamp `_timesign[0]`.
unfoldable pub isr_ch0_xphandle : Timeval → TimeSign → TimeSign
isr_ch0_xphandle now t = record t {
  xp = record { risingedge = t.xp.risingedge; fallingedge = now };
}

unfoldable pub isr_ch0_yphandle : Timeval → TimeSign → TimeSign
isr_ch0_yphandle now t = record t {
  yp = record { risingedge = t.yp.risingedge; fallingedge = now };
}

-- EFAULT
abbrev pub efault : ℤ
efault = negsuc 13

-- `cardet_irq_read`, with `count` in whole entries of `_timesign`: the return value and what
-- reaches the user. The source does not compare `count` with the array: beyond it is `none`.
unfoldable pub cardet_irq_read : Bool → ℕ → List TimeSign → Option (ℤ × List TimeSign)
cardet_irq_read copied count timesign =
    if copied
    then (if ltb (length timesign) count then none else some (pos count, take count timesign))
    else some (efault, [])

-- `cardet_irq_write`: the return value and the driver's array.
unfoldable pub cardet_irq_write :
    Bool → ℕ → List TimeSign → List TimeSign → Option (ℤ × List TimeSign)
cardet_irq_write copied count buf timesign =
    if copied
    then (if ltb (length timesign) count
        then none
        else some (pos count, take count buf ++ drop count timesign))
    else some (efault, timesign)

-- `cardet_irq_open` and `cardet_irq_release`: the value, and the module's use count, which
-- try_module_get and module_put change.
unfoldable cardet_irq_open : ℕ → ℤ × ℕ
cardet_irq_open uses = (pos 0, uses + 1)

unfoldable cardet_irq_release : ℕ → ℤ × ℕ
cardet_irq_release uses = (pos 0, uses - 1)
