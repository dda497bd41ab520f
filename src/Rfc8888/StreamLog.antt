-- ===== src/Rfc8888/StreamLog.antt =====
-- pkg/rfc8888/stream_log.go: the packets of one stream that have come and are still to be reported.
-- Times are those of a type that is a parameter, with the order of two times and the time between
-- them, in units of 1/1024 s as a uint16.
pub mod Reported
pub mod Told
pub mod Report
mod Tests
use interceptor.Common.{
  ℕ, zero, suc, ◌+◌, Bool, true, false, not, ◌&&◌, Option, none, some, List, [], ◌∷◌, ltb,
  if◌then◌else◌,
}
use interceptor.Common.Int.{ℤ, pos, pos_part, ◌+ℤ◌, ◌-ℤ◌, ltb_ℤ, leb_ℤ, eqb_ℤ, emod}
use interceptor.SequenceNumber
use interceptor.SequenceNumber.{Unwrapper}

pub record Clock (T : Type 0) : Type 0 where
  pub before : T → T → Bool
  pub since : T → T → ℕ

pub record PacketReport (T : Type 0) : Type 0 where
  pub arrival_time : T
  pub ecn : ℕ

pub record StreamLog (T : Type 0) : Type 0 where
  pub ssrc : ℕ
  pub sequence : Unwrapper
  pub init : Bool
  pub next_sequence_number_to_report : ℤ
  pub last_sequence_number_received : ℤ
  pub log : List (ℤ × PacketReport T)

pub record MetricBlock : Type 0 where
  pub received : Bool
  pub ecn : ℕ
  pub arrival_time_offset : ℕ

pub record ReportBlock : Type 0 where
  pub media_ssrc : ℕ
  pub begin_sequence : ℕ
  pub metric_blocks : List MetricBlock

-- the variables of the loop: the stream log, `lastReceived` and `gapDetected`
pub record Loop (T : Type 0) : Type 0 where
  pub stream : StreamLog T
  pub last_received : ℤ
  pub gap_detected : Bool

module _ {T : Type 0} where
  -- `newStreamLog`
  abbrev pub new : ℕ → StreamLog T
  new ssrc = record {
    ssrc = ssrc;
    sequence = SequenceNumber.new;
    init = false;
    next_sequence_number_to_report = pos 0;
    last_sequence_number_received = pos 0;
    log = [];
  }

  -- `log[n]`, `log[n] = r` and `delete(log, n)`
  abbrev pub lookup : List (ℤ × PacketReport T) → ℤ → Option (PacketReport T)
  lookup [] n = none
  lookup (x ∷ xs) n = if eqb_ℤ x.0 n then some x.1 else lookup xs n

  abbrev pub delete : List (ℤ × PacketReport T) → ℤ → List (ℤ × PacketReport T)
  delete [] n = []
  delete (x ∷ xs) n = let rest = delete xs n in if eqb_ℤ x.0 n then rest else x ∷ rest

  abbrev pub insert : List (ℤ × PacketReport T) → ℤ → PacketReport T → List (ℤ × PacketReport T)
  insert xs n r = (n, r) ∷ delete xs n

  unfoldable pub add : StreamLog T → T → ℕ → ℕ → StreamLog T
  unfolding SequenceNumber.unwrap
  add l ts sequence_number ecn =
      let (n, u) = SequenceNumber.unwrap l.sequence sequence_number in
      record l {
        sequence = u;
        init = true;
        next_sequence_number_to_report = if l.init then l.next_sequence_number_to_report else n;
        log = insert l.log n (record { arrival_time = ts; ecn = ecn });
        last_sequence_number_received =
            if ltb_ℤ l.last_sequence_number_received n then n else l.last_sequence_number_received;
      }

  unfoldable pub get_arrival_time_offset : Clock T → T → T → ℕ
  get_arrival_time_offset c base arrival =
      if c.before base arrival
      then 8191
      else if ltb 8189 (c.since base arrival)
      then 8190
      else c.since base arrival

  -- the block of a number
  abbrev pub metric : Clock T → T → Option (PacketReport T) → MetricBlock
  unfolding get_arrival_time_offset
  metric c reference none = record { received = false; ecn = 0; arrival_time_offset = 0 }
  metric c reference (some r) = record {
    received = true;
    ecn = r.ecn;
    arrival_time_offset = get_arrival_time_offset c reference r.arrival_time;
  }

  abbrev pub is_some : Option (PacketReport T) → Bool
  is_some none = false
  is_some (some r) = true

  abbrev pub deliver : Loop T → ℤ → Loop T
  deliver s i =
      if is_some (lookup s.stream.log i) && eqb_ℤ i s.stream.next_sequence_number_to_report
      then record s {
        stream = record s.stream {
          log = delete s.stream.log i;
          next_sequence_number_to_report = i +ℤ pos 1;
        };
        last_received = i;
      }
      else s

  abbrev pub note_gap : Loop T → ℤ → Loop T
  note_gap s i = record s {
    gap_detected = if ltb_ℤ (s.last_received +ℤ pos 1) i then true else s.gap_detected;
  }

  -- one round, after its block has been written
  unfoldable pub round : Loop T → ℤ → Loop T
  unfolding ◌+ℤ◌
  round s i = if s.gap_detected then s else note_gap (deliver s i) i

  -- the loop with `k` rounds left, at `i`: the blocks, and the stream log
  unfoldable pub run : Clock T → T → ℕ → ℤ → Loop T → List MetricBlock × StreamLog T
  unfolding round metric ◌+ℤ◌
  run c reference zero i s = ([], s.stream)
  run c reference (suc k) i s =
      let (bs, l) = run c reference k (i +ℤ pos 1) (round s i) in
      (metric c reference (lookup s.stream.log i) ∷ bs, l)

  -- where the report begins: the oldest numbers are left out, when there are too many
  unfoldable pub cut : StreamLog T → ℤ → StreamLog T
  unfolding ◌+ℤ◌ ◌-ℤ◌
  cut l max =
      if ltb_ℤ max (l.last_sequence_number_received -ℤ l.next_sequence_number_to_report +ℤ pos 1)
      then record l {
        next_sequence_number_to_report = l.last_sequence_number_received -ℤ max +ℤ pos 1;
      }
      else l

  abbrev pub num_reports : StreamLog T → ℤ → ℤ
  num_reports l max =
      let n = l.last_sequence_number_received -ℤ l.next_sequence_number_to_report +ℤ pos 1 in
      if ltb_ℤ max n then max else n

  abbrev pub is_empty : List (ℤ × PacketReport T) → Bool
  is_empty [] = true
  is_empty (x ∷ xs) = false

  abbrev pub finish : StreamLog T → List MetricBlock × StreamLog T → ReportBlock × StreamLog T
  finish l r = (
    record {
      media_ssrc = l.ssrc;
      begin_sequence = emod l.next_sequence_number_to_report 65536;
      metric_blocks = r.0;
    },
    r.1,
  )

  -- `metricsAfter`; `none` is a slice of a negative size, which panics
  unfoldable pub metrics_after : Clock T → StreamLog T → T → ℤ → Option (ReportBlock × StreamLog T)
  unfolding run cut ◌-ℤ◌ ◌+ℤ◌
  metrics_after c l reference max =
      if is_empty l.log
      then some (finish l ([], l))
      else if ltb_ℤ (num_reports l max) (pos 0)
      then none
      else (let l' = cut l max in
          some (
            finish l' (
              run c reference (pos_part (num_reports l max)) l'.next_sequence_number_to_report
                (record {
                  stream = l';
                  last_received = l'.next_sequence_number_to_report;
                  gap_detected = false;
                }))))
