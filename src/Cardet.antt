-- ===== src/Cardet.antt =====
-- iMX287Learn/cardet: the car detector. Two light barriers X and Y raise interrupts; a driver
-- stamps their falling edges, and a program polls the driver and counts cars by the order of the
-- stamps.
pub mod Gettime
pub mod Driver
pub mod Detec
pub mod Passing
pub mod System
pub mod Udp
pub mod Loop
mod Tests
