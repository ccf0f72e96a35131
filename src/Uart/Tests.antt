-- ===== src/Uart/Tests.antt =====
-- The settings of the Modbus port.
use linuxapp.Common.{◌≡◌, refl, [], ◌∷◌}
use linuxapp.Common.Int.{pos}
use linuxapp.Uart.{newtio, uart_set_opt}
use linuxapp.Uart.Settings.{char_bits, parity_of, stop_bits, uart_set_opt_lem}

uart_set_opt_lem_example :
    let t = newtio 9600 8 b'N' 1 in
    (uart_set_opt (pos 0) (λ _. pos 0) 9600 8 b'N' 1 ≡ (pos 0, t ∷ []))
    × (char_bits t.csize ≡ 8)
    × (parity_of t ≡ b'N')
    × (stop_bits t ≡ 1)
    × (t.ispeed ≡ 9600)
    × (t.ospeed ≡ t.ispeed)
uart_set_opt_lem_example = uart_set_opt_lem (pos 0) (λ _. pos 0) 9600 8 b'N' 1 refl refl
