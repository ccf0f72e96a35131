-- ===== src/Usrtime.antt =====
-- iMX287Learn/cqada/share/usrtime.c: the wall clock in three units. `gettimeofday` is an argument:
-- the seconds and microseconds that it stored. gint64_t is an unsigned 64-bit integer.
mod Units
use linuxapp.Common.{ℕ, ◌+◌, ◌*◌, ◌/◌, u64}
use linuxapp.Common.Timeval.{Timeval}

unfoldable pub get_system_time_milli : Timeval → ℕ
get_system_time_milli tve = u64 (tve.tv_sec * 1000 + tve.tv_usec / 1000)

unfoldable pub get_system_time_nano : Timeval → ℕ
get_system_time_nano tve = u64 (tve.tv_sec * (1000 * 1000 * 1000) + tve.tv_usec * 1000)

unfoldable pub get_system_time_micro : Timeval → ℕ
get_system_time_micro tve = u64 (tve.tv_sec * (1000 * 1000) + tve.tv_usec)
