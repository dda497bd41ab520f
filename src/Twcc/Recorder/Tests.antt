-- ===== src/Twcc/Recorder/Tests.antt =====
-- A recorder past the wrap-around, with two numbers that have not come.
use interceptor.Common.{◌*◌, ◌≡◌, refl, sym, subst, true, some, [], ◌∷◌, arith, All, set, replicate}
use interceptor.Common.Int.{ℤ, pos, ◌+ℤ◌, ◌-ℤ◌, ◌<ℤ◌}
use interceptor.SequenceNumber.{unwrap, adjust, is_newer}
use interceptor.Twcc.ArrivalTimeMap.{
  never, span, each, write, set_not_received, reallocate, grow, shrink, adjust_to_size, add_before,
  add_after, add_packet, get,
}
use interceptor.Twcc.Recorder.{
  Recorder, new_recorder, record_packet, maybe_cull_old_packets, build_feedback_packet,
}
use interceptor.Twcc.Recorder.Received.{received}
use interceptor.Twcc.Recorder.Report.{Tells}
use interceptor.Twcc.Recorder.Kept.{IsKept, fresh, record_packet-IsKept}
use interceptor.Twcc.Recorder.Complete.{build_feedback_packet-Tells}

abbrev sample : Recorder
sample = record {
  arrival_time_map = record {
    arrival_times =
        set (set (set (set (replicate 128 (pos 0)) 126 (pos 100300)) 127 never) 0 never) 1
          (pos 220000);
    begin_sequence_number = pos 65534;
    end_sequence_number = pos 65538;
  };
  sequence_unwrapper = record { init = true; last_unwrapped = pos 65537 };
  start_sequence_number = some (pos 65534);
  sender_ssrc = 1;
  media_ssrc = 2;
  fb_pkt_cnt = 0;
  packets_held = 2;
}

sample_is :
    record_packet (record_packet (new_recorder 1) 2 65534 (pos 100300)) 2 1 (pos 220000) ≡ sample
unfolding record_packet maybe_cull_old_packets unwrap adjust is_newer get add_packet add_before
    add_after adjust_to_size grow shrink reallocate set_not_received write each span ◌+ℤ◌ ◌-ℤ◌
sample_is = refl

sample_received :
    received sample.arrival_time_map (span (pos 65534) (pos 65538)) (pos 65534)
    ≡ (pos 65534, pos 100300) ∷ (pos 65537, pos 220000) ∷ []
unfolding received get span ◌+ℤ◌ ◌-ℤ◌
sample_received = refl

build_feedback_packet-Tells_example :
    Tells 125
      (received sample.arrival_time_map (span (pos 65534) (pos 65538)) (pos 65534))
      (build_feedback_packet 250 sample).0
unfolding ◌+ℤ◌
build_feedback_packet-Tells_example =
    build_feedback_packet-Tells 250 sample (pos 65534) (omega arith) (omega arith, omega arith) refl
      (subst (All (λ (x : ℤ × ℤ). x.1 <ℤ pos (4294967296 * 64000))) (sym sample_received)
        (omega arith, (omega arith, tt)))

record_packet-IsKept_example : IsKept (record_packet (new_recorder 1) 2 65534 (pos 100300))
record_packet-IsKept_example =
    record_packet-IsKept (new_recorder 1) 2 65534 (pos 100300) (fresh refl refl)
