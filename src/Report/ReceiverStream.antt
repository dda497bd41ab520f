-- ===== src/Report/ReceiverStream.antt =====
-- pkg/report/receiver_stream.go: the last 8192 sequence numbers of a stream as bits, and the report
-- that counts the ones that are missing. Times and float64 are types that are parameters, with the
-- operations that the code uses; the mutex is left out, each method being one step.
pub mod Received
pub mod Lost
pub mod Jump
mod Tests
use interceptor.Common.{
  ℕ, zero, suc, ◌+◌, ◌*◌, ◌/◌, ◌%◌, Bool, true, false, not, ◌&&◌, List, [], ◌∷◌, ltb, ◌==◌,
  if◌then◌else◌, replicate, sub16, add16, uint16_size_half,
}
use interceptor.Report.{Floats, Header}
use interceptor.Common.Bits.{set_pos, clear_pos, test_pos}
use interceptor.Common.Range.{for_range}
use Prim.Native.Nat.{bit_or}

pub record ReceiverStream (T F : Type 0) : Type 0 where
  pub ssrc : ℕ
  pub receiver_ssrc : ℕ
  pub clock_rate : F
  pub size : ℕ
  pub packets : List ℕ
  pub started : Bool
  pub seqnum_cycles : ℕ
  pub last_seqnum : ℕ
  pub last_report_seqnum : ℕ
  pub last_rtp_time_rtp : ℕ
  pub last_rtp_time_time : T
  pub jitter : F
  pub last_sender_report : ℕ
  pub last_sender_report_time : T
  pub total_lost : ℕ

pub record ReceptionReport : Type 0 where
  pub ssrc : ℕ
  pub last_sequence_number : ℕ
  pub last_sender_report : ℕ
  pub fraction_lost : ℕ
  pub total_lost : ℕ
  pub delay : ℕ
  pub jitter : ℕ

pub record ReceiverReport : Type 0 where
  pub ssrc : ℕ
  pub reports : List ReceptionReport

abbrev pub max_lost : ℕ
max_lost = 16777215

abbrev pub at_most_max : ℕ → ℕ
at_most_max n = if ltb max_lost n then max_lost else n

module _ {T F : Type 0} where
  -- `newReceiverStream`, with the random number that it draws
  unfoldable pub new_receiver_stream : Floats T F → ℕ → ℕ → ℕ → ReceiverStream T F
  new_receiver_stream fl receiver ssrc rate = record {
    ssrc = ssrc;
    receiver_ssrc = receiver;
    clock_rate = fl.of_nat rate;
    size = 128;
    packets = replicate 128 0;
    started = false;
    seqnum_cycles = 0;
    last_seqnum = 0;
    last_report_seqnum = 0;
    last_rtp_time_rtp = 0;
    last_rtp_time_time = fl.zero_time;
    jitter = fl.of_nat 0;
    last_sender_report = 0;
    last_sender_report_time = fl.zero_time;
    total_lost = 0;
  }

  -- the position of a number; the product is a uint16
  abbrev pub position : ReceiverStream T F → ℕ → ℕ
  position s seq = seq % (s.size * 64 % 65536)

  unfoldable pub set_received : ReceiverStream T F → ℕ → ReceiverStream T F
  set_received s seq = record s { packets = set_pos s.packets (position s seq) }

  unfoldable pub del_received : ReceiverStream T F → ℕ → ReceiverStream T F
  del_received s seq = record s { packets = clear_pos s.packets (position s seq) }

  unfoldable pub get_received : ReceiverStream T F → ℕ → Bool
  get_received s seq = test_pos s.packets (position s seq)

  -- `if diff > 0 && diff < (1<<15)`
  unfoldable pub move_on : ReceiverStream T F → ℕ → ReceiverStream T F
  move_on s seq =
      let diff = sub16 seq s.last_seqnum in
      if ltb 0 diff && ltb diff uint16_size_half
      then (let t = record s {
        seqnum_cycles = if ltb seq s.last_seqnum then add16 s.seqnum_cycles 1 else s.seqnum_cycles;
      } in
          record (for_range (λ i u. del_received u i) (add16 s.last_seqnum 1) seq t) {
            last_seqnum = seq;
          })
      else s

  unfoldable pub update_jitter : Floats T F → T → Header → ReceiverStream T F → ReceiverStream T F
  update_jitter fl now h s =
      let d =
        fl.minus (fl.times (fl.seconds_between now s.last_rtp_time_time) s.clock_rate)
          (fl.minus (fl.of_nat h.timestamp) (fl.of_nat s.last_rtp_time_rtp)) in
      let e = if fl.is_negative d then fl.negated d else d in
      record s {
        jitter = fl.plus s.jitter (fl.over (fl.minus e s.jitter) (fl.of_nat 16));
        last_rtp_time_rtp = h.timestamp;
        last_rtp_time_time = now;
      }

  unfoldable pub process_rtp : Floats T F → T → Header → ReceiverStream T F → ReceiverStream T F
  process_rtp fl now h s =
      let t = set_received s h.sequence_number in
      if not s.started
      then record t {
        started = true;
        last_seqnum = h.sequence_number;
        last_report_seqnum = sub16 h.sequence_number 1;
        last_rtp_time_rtp = h.timestamp;
        last_rtp_time_time = now;
      }
      else update_jitter fl now h (move_on t h.sequence_number)

  -- packets one after the other, with the times when they come
  pub process_all : Floats T F → List (T × Header) → ReceiverStream T F → ReceiverStream T F
  process_all fl [] s = s
  process_all fl (p ∷ ps) s = process_all fl ps (process_rtp fl p.0 p.1 s)

  -- `processSenderReport`, with the NTP time of the report
  unfoldable pub process_sender_report : T → ℕ → ReceiverStream T F → ReceiverStream T F
  process_sender_report now ntp s = record s {
    last_sender_report = ntp / 65536 % 4294967296;
    last_sender_report_time = now;
  }

  -- the loop that counts the numbers from `i` on that have not been received, of `k` rounds
  unfoldable pub count_lost : ReceiverStream T F → ℕ → ℕ → ℕ
  unfolding get_received
  count_lost s zero i = 0
  count_lost s (suc k) i =
      let rest = count_lost s k (add16 i 1) in if get_received s i then rest else 1 + rest

  -- `totalLostSinceReport`
  unfoldable pub total_lost_since_report : ReceiverStream T F → ℕ
  unfolding count_lost
  total_lost_since_report s =
      if s.last_seqnum == s.last_report_seqnum
      then 0
      else (let start = add16 s.last_report_seqnum 1 in
          count_lost s (sub16 s.last_seqnum start) start)

  unfoldable pub reception_report : Floats T F → T → ReceiverStream T F → ℕ → ReceptionReport
  reception_report fl now s lost = record {
    ssrc = s.ssrc;
    last_sequence_number = bit_or (s.seqnum_cycles * 65536) s.last_seqnum;
    last_sender_report = s.last_sender_report;
    fraction_lost = fl.to_uint8 (
        fl.over (fl.of_nat (lost * 256 % 4294967296))
          (fl.of_nat (sub16 s.last_seqnum s.last_report_seqnum)));
    total_lost = s.total_lost;
    delay =
        if fl.is_zero s.last_sender_report_time
        then 0
        else fl.to_uint32
            (fl.times (fl.seconds_between now s.last_sender_report_time) (fl.of_nat 65536));
    jitter = fl.to_uint32 s.jitter;
  }

  -- the report, and the stream after it
  unfoldable pub generate_report :
      Floats T F → T → ReceiverStream T F → ReceiverReport × ReceiverStream T F
  unfolding total_lost_since_report reception_report
  generate_report fl now s =
      let lost = total_lost_since_report s in
      let t = record s { total_lost = at_most_max ((s.total_lost + lost) % 4294967296) } in
      (
        record {
          ssrc = s.receiver_ssrc;
          reports = reception_report fl now t (at_most_max lost) ∷ [];
        },
        record t { last_report_seqnum = s.last_seqnum },
      )
