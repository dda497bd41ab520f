-- ===== src/Report/ReceiverStream/Tests.antt =====
-- A stream of which 100 is the last number, with floats and times that are natural numbers.
use interceptor.Common.{
  ℕ, ◌+◌, ◌-◌, ◌*◌, ◌/◌, ◌%◌, ◌≡◌, refl, true, false, List, [], ◌∷◌, map, replicate, ◌==◌, arith,
}
use Prim.Native.Nat.{min}
use interceptor.Common.Bits.{test_pos, test_bit, set_pos, clear_pos, set_bit, clear_bit}
use interceptor.Common.Range.{for_range}
use interceptor.Report.{Floats, Header}
use interceptor.Report.ReceiverStream.{
  ReceiverStream, new_receiver_stream, get_received, set_received, del_received, move_on,
  update_jitter, process_rtp, process_all, total_lost_since_report, generate_report,
}
use interceptor.Report.ReceiverStream.Received.{IsStream}
use interceptor.Report.ReceiverStream.Lost.{
  missing, offsets, IsReported, generate_report-process_all,
}
use interceptor.Report.ReceiverStream.Jump.{process_rtp-get_received_jump}

abbrev whole : Floats ℕ ℕ
whole = record {
  zero_time = 0;
  is_zero = λ t. t == 0;
  unix_nano = λ t. t;
  seconds_between = λ t u. t - u;
  of_nat = λ n. n;
  plus = λ m n. m + n;
  minus = λ m n. m - n;
  times = λ m n. m * n;
  over = λ m n. m / n;
  negated = λ n. n;
  is_negative = λ n. false;
  to_uint8 = λ n. n % 256;
  to_uint32 = λ n. n % 4294967296;
}

abbrev packet : ℕ → Header
packet n = record { sequence_number = n; timestamp = 0 }

abbrev started_at_100 : ReceiverStream ℕ ℕ
started_at_100 = record (new_receiver_stream whole 1 2 90000) {
  started = true;
  last_seqnum = 100;
  last_report_seqnum = 100;
  packets = 0 ∷ 68719476736 ∷ replicate 126 0;
}

-- 103 and 104 do not come, 102 comes late
abbrev some_packets : List (ℕ × Header)
some_packets = (1, packet 101) ∷ (2, packet 105) ∷ (3, packet 102) ∷ (4, packet 105) ∷ []

started-IsStream : IsStream started_at_100
unfolding new_receiver_stream
started-IsStream = record {
  size = refl;
  storage = refl;
  last = omega arith;
  last_report = omega arith;
}

lost_two : total_lost_since_report (process_all whole some_packets started_at_100) ≡ 2
unfolding new_receiver_stream process_all process_rtp move_on update_jitter total_lost_since_report
    set_received for_range del_received test_pos test_bit set_pos clear_pos set_bit clear_bit
lost_two = refl

generate_report-process_all_example :
    (total_lost_since_report (process_all whole some_packets started_at_100)
      ≡ missing (offsets 100 some_packets []))
    × (map
          (λ r. r.total_lost)
          (generate_report whole 9 (process_all whole some_packets started_at_100)).0.reports
        ≡ min ((0 + missing (offsets 100 some_packets [])) % 4294967296) 16777215 ∷ [])
    × IsReported (generate_report whole 9 (process_all whole some_packets started_at_100)).1
unfolding new_receiver_stream
generate_report-process_all_example =
    generate_report-process_all whole 9 some_packets started_at_100
      (record { stream = started-IsStream; started = refl; last = refl })
      (
        (omega arith, omega arith, omega arith),
        (
          (omega arith, omega arith, omega arith),
          ((omega arith, omega arith, omega arith), ((omega arith, omega arith, omega arith), tt)),
        ),
      )

process_rtp-get_received_jump_example :
    (get_received (process_rtp whole 1 (packet 9000) started_at_100) 9000 ≡ false)
    × ((process_rtp whole 1 (packet 9000) started_at_100).last_seqnum ≡ 9000)
unfolding new_receiver_stream
process_rtp-get_received_jump_example =
    process_rtp-get_received_jump whole 1 (packet 9000) started_at_100 9000 started-IsStream refl
      (omega arith) (omega arith) (omega arith)
