-- ===== src/Mqtt/Tests.antt =====
-- A connection, and an event on it, with concrete answers.
use linuxapp.Mqtt.Packet.{read_lines, send_packet_text, packet_readable}
use linuxapp.Common.Int.{is_negative, ℤ, pos, negsuc}
use linuxapp.Common.{
  true, some, [], ◌∷◌, ◌++◌, ◌≡◌, ◌⊎◌, refl, inl, inr, replicate, if◌then◌else◌, ◌&&◌, List, ◌≢◌,
}
use mathlib.Core.Path.{subst}
use linuxapp.Mqtt.{
  Mqtt, SystemCall, Answers, drv_mqtt_connect_cmd, drv_mqtt_socket_handle, packet, io_error,
  Received,
}
use linuxapp.Mqtt.Descriptors.{
  System, IsTidy, account_all, is_error, connect_IsTidy, socket_handle_IsTidy,
}
use linuxapp.Common.{drop, ℕ}
use linuxapp.Common.{arith}

-- A client on descriptor 5, its one shot spent.
abbrev old : Mqtt
old = record { fd = pos 5; read_func_arg = pos 5; writev_func_arg = pos 5 }

abbrev spent : System
spent = record { opened = pos 5 ∷ []; armed = [] }

-- Descriptor 5 is free again and given to the new socket, and the packet cannot be sent.
abbrev unsent : Answers
unsent = record {
  host_found = true;
  socket_fd = pos 5;
  connected = true;
  nonblock = pos 0;
  added = pos 0;
  packed = true;
  sent = negsuc 0;
}

spent-IsTidy : IsTidy old spent
unfolding IsTidy
spent-IsTidy = inr (refl, refl, inl refl)

connect_IsTidy_example :
    let (result, calls, m') = drv_mqtt_connect_cmd unsent old in
    IsTidy m' (account_all calls spent) × (result ≡ negsuc 0)
connect_IsTidy_example = connect_IsTidy unsent old spent spent-IsTidy

abbrev Kind : Received → Type 0
Kind packet = ⊥
Kind _ = Unit

error_is_no_packet : io_error ≢ packet
error_is_no_packet e = subst Kind e tt

socket_handle_IsTidy_example :
    (out : ℤ × List SystemCall × Mqtt) × (drv_mqtt_socket_handle true
        (replicate 2 packet ++ io_error ∷ [])
        old
      ≡ some out)
    × IsTidy out.2 (account_all out.1 spent)
    × (if true && is_error io_error
        then (out.0 ≡ negsuc 0) × (out.1 ≡ []) × (out.2 ≡ old)
        else (out.0 ≡ pos 0)
          × ((is_negative out.2.fd ≡ true) ⊎ ((account_all out.1 spent).armed ≡ out.2.fd ∷ [])))
socket_handle_IsTidy_example =
    socket_handle_IsTidy true 2 io_error [] old spent error_is_no_packet refl spent-IsTidy

-- A packet in two parts.
abbrev two_parts : List (List ℕ)
two_parts = (0x10 ∷ 0xff ∷ []) ∷ (0x0a ∷ []) ∷ []

packet_readable_example : read_lines 2 (drop 13 (send_packet_text two_parts)) ≡ two_parts
packet_readable_example =
    packet_readable two_parts
      (((omega arith, (omega arith, tt)), omega arith), (((omega arith, tt), omega arith), tt))
