-- ===== src/Pid.antt =====
-- iMX287Learn/pid: seven speed controllers, each a program of its own. Their numbers are C floats;
-- the model takes the type and its operations as a parameter.
pub mod Arith
pub mod Positional
pub mod Incremental
pub mod Windup
pub mod Variable
mod Programs
mod Tests
