-- ===== src/Drivers.antt =====
-- How the kernel drivers of this repository start and end: ds18b20.c and userio.c of ok335xDriver,
-- iMX287Learn/cardet/driver/dev.c, and ledsDriver.c, devNodeReg.c and driverReg.c of 4412Drive.
-- Each is a function from the answers of the kernel's calls to its result and the calls that it
-- makes, in order.
pub mod Onewire
pub mod Userio
pub mod CardetDev
pub mod Platform
pub mod Leds
mod KeyIrq
mod Programs
mod Tests
use linuxapp.Common.Int.{is_negative, ℤ, pos, pos_part, neg_part, ltb_ℤ}
use linuxapp.Common.{
  ℕ, ◌+◌, ◌-◌, ◌==◌, Bool, true, false, not, if◌then◌else◌, Option, none, some, List, [], ◌∷◌, ◌++◌,
}

-- A call with its answer, where it has one that matters; `class_create` answers whether it made a
-- class.
pub data KernelCall : Type 0 where
  alloc_chrdev_region register_chrdev_region cdev_add : ℤ → KernelCall
  misc_register platform_driver_register : ℤ → KernelCall
  gpio_request : ℕ → ℤ → KernelCall
  gpio_free gpio_direction_input gpio_config_output set_irq_type : ℕ → KernelCall
  gpio_set_value : ℕ → ℕ → KernelCall
  request_irq : ℕ → ℤ → KernelCall
  free_irq enable_irq disable_irq : ℕ → KernelCall
  cdev_alloc class_create : Bool → KernelCall
  ioremap iounmap : ℕ → KernelCall
  cdev_init device_create cdev_del device_destroy class_destroy : KernelCall
  unregister_chrdev_region misc_deregister platform_driver_unregister : KernelCall

abbrev pub is_nonzero : ℤ → Bool
is_nonzero e = not (pos_part e + neg_part e == 0)

-- The value of an initialisation or of an operation, and the calls made.
pub record Outcome : Type 0 where
  pub result : ℤ
  pub calls : List KernelCall

-- What a driver holds. The kernel documents which calls give it and which take it back; a call that
-- failed gives nothing, iounmap(NULL) takes nothing. `object` is the reference that a character
-- device has from its initialisation on, added or not, until cdev_del.
pub record Held : Type 0 where
  pub region : Bool
  pub cdev : Bool
  pub object : Bool
  pub class_made : Bool
  pub device : Bool
  pub misc : Bool
  pub driver : Bool
  pub pins : List ℕ
  pub irqs : List ℕ
  pub maps : List ℕ

-- The list without every n.
abbrev pub without : ℕ → List ℕ → List ℕ
without n [] = []
without n (m ∷ ms) = if m == n then without n ms else m ∷ without n ms

unfoldable pub account : KernelCall → Held → Held
account (alloc_chrdev_region e) h = if is_negative e then h else record h { region = true }
account (register_chrdev_region e) h = if is_negative e then h else record h { region = true }
account unregister_chrdev_region h = record h { region = false }
account (cdev_add e) h = if is_nonzero e then h else record h { cdev = true }
account (cdev_alloc made) h = record h { object = made }
account cdev_init h = record h { object = true }
account cdev_del h = record h { cdev = false; object = false }
account (class_create made) h = record h { class_made = made }
account class_destroy h = record h { class_made = false }
account device_create h = record h { device = h.class_made }
account device_destroy h = record h { device = false }
account (gpio_request n e) h = if is_negative e then h else record h { pins = n ∷ h.pins }
account (gpio_free n) h = record h { pins = without n h.pins }
account (request_irq n e) h = if is_nonzero e then h else record h { irqs = n ∷ h.irqs }
account (free_irq n) h = record h { irqs = without n h.irqs }
account (ioremap a) h = record h { maps = a ∷ h.maps }
account (iounmap a) h = record h { maps = without a h.maps }
account (misc_register e) h = if is_nonzero e then h else record h { misc = true }
account misc_deregister h = record h { misc = false }
account (platform_driver_register e) h = if is_nonzero e then h else record h { driver = true }
account platform_driver_unregister h = record h { driver = false }
account _ h = h

unfoldable pub account_all : List KernelCall → Held → Held
unfolding account
account_all [] h = h
account_all (c ∷ cs) h = account_all cs (account c h)

-- Nothing held.
abbrev pub nothing : Held
nothing = record {
  region = false;
  cdev = false;
  object = false;
  class_made = false;
  device = false;
  misc = false;
  driver = false;
  pins = [];
  irqs = [];
  maps = [];
}

-- The result of a start that has one, and what is held after it and some more calls.
abbrev pub left_after : List KernelCall → Option Outcome → Option (ℤ × Held)
left_after more none = none
left_after more (some r) = some (r.result, account_all (r.calls ++ more) nothing)
