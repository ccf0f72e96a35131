-- ===== src/CommSub/Tests.antt =====
-- Runs of the serial master, and its theorems at concrete states.
use linuxapp.Common.{
  ℕ, ◌≡◌, ◌≤◌, ◌<◌, ◌↔◌, ◌⊎◌, refl, some, none, ◌>>=◌, List, [], ◌∷◌, arith, replicate,
}
use linuxapp.Common.Int.{pos}
use linuxapp.Uart.{got}
use linuxapp.Crc.{crc16, auch_crc_hi, auch_crc_lo}
use linuxapp.Crc.Reference.{crc_modbus}
use linuxapp.CommSub.{
  CommSub, zero_rcv, zero_list, add_list, exe_mbus, run, comm_sub_init, comm_sub_check,
  comm_sub_read_tick, check_pass, check_packet_error,
}
use linuxapp.CommSub.Sender.{init_sends_nothing}
use linuxapp.CommSub.Frame.{rcv_with, frame_of, received_frame, ticks}
use linuxapp.CommSub.Checks.{check_faults_iff, check_damaged, tick_faults_iff, check_again}
use linuxapp.CommSub.{check_crcbuf_equal}

abbrev fresh : CommSub
fresh = record {
  fd_uart = pos 3;
  rcv = zero_rcv;
  time_out = 150;
  sub_list = zero_list;
  crc_buf = replicate 10 (0, 0);
}

-- A device's answer: the request of one register, its check value behind it.
abbrev answer : List ℕ
answer = 0x01 ∷ 0x03 ∷ 0x00 ∷ 0x00 ∷ 0x00 ∷ 0x0a ∷ []

abbrev holding : CommSub
holding = record fresh { rcv = rcv_with (frame_of answer 0xc5 0xcd) }

abbrev job : List ℕ
job = 1 ∷ 6 ∷ 0 ∷ 1 ∷ 0 ∷ 3 ∷ 0x9a ∷ 0x9b ∷ []

started :
    comm_sub_init (λ dev. pos 3) (pos 0) (λ t. pos 0) fresh
    ≡ some (record fresh { sub_list = zero_list })
unfolding comm_sub_init
started = refl

ran : run (add_list job ∷ exe_mbus 1000 ∷ []) fresh ≡ some (record fresh { time_out = 1150 }, [])
unfolding run
ran = refl

abbrev no_output : List (List ℕ)
no_output = []

init_sends_nothing_example : (no_output ≡ []) × (zero_list ≡ zero_list)
init_sends_nothing_example =
    init_sends_nothing (λ dev. pos 3) (pos 0) (λ t. pos 0) fresh fresh
      (record fresh { time_out = 1150 }) (add_list job ∷ exe_mbus 1000 ∷ []) [] started ran

abbrev passed_state : CommSub
passed_state = record holding { crc_buf = (0xc5, 0xcd) ∷ replicate 9 (0, 0) }

holding_passes : comm_sub_check holding ≡ some (check_pass, passed_state)
unfolding comm_sub_check crc16 auch_crc_hi auch_crc_lo
holding_passes = refl

check_again_example : comm_sub_check passed_state ≡ some (check_crcbuf_equal, passed_state)
check_again_example = check_again holding passed_state holding_passes

-- Address 11 has no slot.
abbrev stray : List ℕ
stray = 0x03 ∷ []

check_faults_iff_example :
    (comm_sub_check (record fresh { rcv = rcv_with (frame_of (11 ∷ stray) 0x46 0x81) }) ≡ none)
    ↔ ((◌≡◌ {A = ℕ} 11 0) ⊎ (10 < 11))
unfolding crc_modbus
check_faults_iff_example =
    check_faults_iff 11 stray 0x46 0x81
      (record fresh { rcv = rcv_with (frame_of (11 ∷ stray) 0x46 0x81) }) (omega arith)
      (omega arith) (omega arith) refl refl refl

-- The last byte of the message and the first of the check value are damaged.
abbrev damaged_state : CommSub
damaged_state = record fresh {
  rcv = rcv_with (frame_of (0x01 ∷ 0x03 ∷ 0x00 ∷ 0x00 ∷ 0x00 ∷ 0x0b ∷ []) 0x05 0xcd);
}

check_damaged_example : comm_sub_check damaged_state ≡ some (check_packet_error, damaged_state)
unfolding crc_modbus
check_damaged_example =
    check_damaged answer (0x01 ∷ 0x03 ∷ 0x00 ∷ 0x00 ∷ 0x00 ∷ 0x0b ∷ []) 0xc5 0xcd 0x05 0xcd
      (0x01 ∷ 0x03 ∷ 0x00 ∷ 0x00 ∷ 0x00 ∷ []) (0x0a ∷ 0xc5 ∷ []) (0x0b ∷ 0x05 ∷ []) (0xcd ∷ [])
      damaged_state (omega arith) (omega arith) (omega arith, omega arith)
      (omega arith, omega arith) refl refl refl (omega arith) (λ e. ground arith) (omega arith) refl
      refl

abbrev arrived : List (ℕ × ℕ)
arrived = (10, 0x01) ∷ (20, 0x03) ∷ (30, 0xc5) ∷ (40, 0xcd) ∷ []

received_frame_example :
    (ticks arrived fresh >>= comm_sub_check)
    ≡ some (
      check_packet_error,
      record fresh { rcv = rcv_with (frame_of (0x01 ∷ 0x03 ∷ []) 0xc5 0xcd) },
    )
unfolding crc_modbus
received_frame_example =
    received_frame arrived 0x01 (0x03 ∷ []) 0xc5 0xcd fresh refl (omega arith) refl (omega arith)
      (omega arith) (omega arith) (omega arith)

tick_faults_iff_example : (comm_sub_read_tick 3 (got 7) fresh ≡ none) ↔ (128 ≤ 0)
tick_faults_iff_example = tick_faults_iff 3 (got 7) fresh (omega arith) refl
