-- ===== src/Rfc8888/StreamLog/Tests.antt =====
-- A stream log with a gap, and a clock of numbers.
use interceptor.Common.{ℕ, ◌-◌, ◌%◌, ◌≡◌, refl, true, [], ◌∷◌, ltb, arith}
use interceptor.Common.Int.{pos, ◌+ℤ◌, ◌-ℤ◌}
use interceptor.SequenceNumber.{unwrap, adjust, is_newer}
use interceptor.Rfc8888.StreamLog.{Clock, StreamLog, new, add, metrics_after}
use interceptor.Rfc8888.StreamLog.Report.{Reports, metrics_after-Reports}

abbrev clock : Clock ℕ
clock = record { before = ltb; since = λ a b. (a - b) % 65536 }

-- 5, 6 and 8 have come
abbrev three : StreamLog ℕ
three = record {
  ssrc = 1;
  sequence = record { init = true; last_unwrapped = pos 8 };
  init = true;
  next_sequence_number_to_report = pos 5;
  last_sequence_number_received = pos 8;
  log =
      (pos 8, record { arrival_time = 130; ecn = 0 })
      ∷ (pos 6, record { arrival_time = 120; ecn = 1 })
      ∷ (pos 5, record { arrival_time = 100; ecn = 0 })
      ∷ [];
}

three_is : add (add (add (new 1) 100 5 0) 120 6 1) 130 8 0 ≡ three
unfolding add unwrap adjust is_newer ◌+ℤ◌ ◌-ℤ◌
three_is = refl

metrics_after-Reports_example :
    Reports clock 200 three (pos 3) (metrics_after clock three 200 (pos 3))
metrics_after-Reports_example =
    metrics_after-Reports clock 200 three (pos 3) refl (omega arith) (unfold ◌+ℤ◌ in omega arith)
