-- ===== src/CommSub/Queue/Tests.antt =====
-- Calls on a list whose two packets stand around the end of the array.
use linuxapp.Common.{ℕ, some, [], ◌∷◌, ◌≡◌, refl, arith, map, take, drop, replicate, ◌++◌}
use linuxapp.Common.Int.{pos}
use linuxapp.CommSub.{CommSub, CommSubList, MbusPacket, zero_packet, zero_rcv, packet_bytes}
use linuxapp.CommSub.Queue.{IsRing, queued, drain, drain_lem}

abbrev packet : ℕ → MbusPacket
packet n = record zero_packet { addr = n }

abbrev two_packets : CommSubList
two_packets = record {
  rev0 = 0;
  index = 0;
  eof = 1;
  sof = 9;
  m_bus = packet 4 ∷ (replicate 8 zero_packet ++ packet 3 ∷ []);
}

abbrev before : CommSub
before = record {
  fd_uart = pos 3;
  rcv = zero_rcv;
  time_out = 0;
  sub_list = two_packets;
  crc_buf = replicate 10 (0, 0);
}

two_packets-IsRing : IsRing two_packets
two_packets-IsRing = record { whole = refl; sof-lt = omega arith; eof-lt = omega arith }

drain_lem_example :
    (t : CommSub) × (drain (5 ∷ 6 ∷ 7 ∷ []) before
      ≡ some (t, map packet_bytes (take 3 (queued two_packets))))
    × (queued t.sub_list ≡ drop 3 (queued two_packets))
    × IsRing t.sub_list
drain_lem_example = drain_lem (5 ∷ 6 ∷ 7 ∷ []) before two_packets-IsRing
