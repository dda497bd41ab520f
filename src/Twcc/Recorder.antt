-- ===== src/Twcc/Recorder.antt =====
-- pkg/twcc/twcc.go, Recorder: what has arrived since the last feedback, and the packets about it.
pub mod Received
pub mod Packet
pub mod First
pub mod Begin
pub mod Report
pub mod Complete
pub mod Kept
mod Tests
use interceptor.Common.{
  ℕ, zero, suc, ◌+◌, ◌%◌, Bool, true, false, not, ◌&&◌, Option, none, some, List, [], ◌∷◌,
  if◌then◌else◌,
}
use interceptor.Common.Int.{ℤ, pos, ◌+ℤ◌, ◌-ℤ◌, ltb_ℤ, leb_ℤ, emod}
use interceptor.SequenceNumber
use interceptor.SequenceNumber.{Unwrapper}
use interceptor.Twcc.ArrivalTimeMap
use interceptor.Twcc.ArrivalTimeMap.{
  PacketArrivalTimeMap, span, clamp, has_received, add_packet, find_next_at_or_after,
  remove_old_packets,
}
use interceptor.Twcc.Feedback
use interceptor.Twcc.Feedback.{Feedback, TransportLayerCc, set_base, add_received, get_rtcp}

abbrev pub packet_window_microseconds : ℤ
packet_window_microseconds = pos 500000

abbrev pub max_missing_sequence_numbers : ℤ
max_missing_sequence_numbers = pos 32766

pub record Recorder : Type 0 where
  pub arrival_time_map : PacketArrivalTimeMap
  pub sequence_unwrapper : Unwrapper
  pub start_sequence_number : Option ℤ
  pub sender_ssrc : ℕ
  pub media_ssrc : ℕ
  pub fb_pkt_cnt : ℕ
  pub packets_held : ℕ

-- `NewRecorder`
abbrev pub new_recorder : ℕ → Recorder
new_recorder sender = record {
  arrival_time_map = ArrivalTimeMap.new;
  sequence_unwrapper = SequenceNumber.new;
  start_sequence_number = none;
  sender_ssrc = sender;
  media_ssrc = 0;
  fb_pkt_cnt = 0;
  packets_held = 0;
}

abbrev pub cull : Recorder → Option ℤ → ℤ → ℤ → Recorder
cull r none sn arrival_time = r
cull r (some start) sn arrival_time =
    if leb_ℤ r.arrival_time_map.end_sequence_number start
      && leb_ℤ packet_window_microseconds arrival_time
    then record r {
      arrival_time_map =
          remove_old_packets r.arrival_time_map sn (arrival_time -ℤ packet_window_microseconds);
    }
    else r

unfoldable pub maybe_cull_old_packets : Recorder → ℤ → ℤ → Recorder
unfolding remove_old_packets ◌-ℤ◌
maybe_cull_old_packets r sn arrival_time = cull r r.start_sequence_number sn arrival_time

-- `start == nil || sn < *start`, and the start that then holds
abbrev pub lower_start : Option ℤ → ℤ → ℤ
lower_start none sn = sn
lower_start (some start) sn = if ltb_ℤ sn start then sn else start

-- the start is not before the range
abbrev pub raise_start : ℤ → ℤ → ℤ
raise_start start begin = if ltb_ℤ start begin then begin else start

unfoldable pub record_packet : Recorder → ℕ → ℕ → ℤ → Recorder
unfolding SequenceNumber.unwrap maybe_cull_old_packets add_packet ArrivalTimeMap.get
record_packet r media_ssrc sequence_number arrival_time =
    let (sn, u) = SequenceNumber.unwrap r.sequence_unwrapper sequence_number in
    let c =
      maybe_cull_old_packets (record r { media_ssrc = media_ssrc; sequence_unwrapper = u }) sn
        arrival_time in
    let start = lower_start c.start_sequence_number sn in
    if has_received c.arrival_time_map sn
    then record c { start_sequence_number = some start }
    else (let m = add_packet c.arrival_time_map sn arrival_time in
        record c {
          arrival_time_map = m;
          packets_held = c.packets_held + 1;
          start_sequence_number = some (raise_start start m.begin_sequence_number);
        })

-- What one call of `maybeBuildFeedbackPacket` leaves: the feedback, where the next one starts, and the
-- count of the packets.
pub record Built : Type 0 where
  pub feedback : Option Feedback
  pub start : ℤ
  pub fb_pkt_cnt : ℕ

abbrev pub max_ℤ : ℤ → ℤ → ℤ
max_ℤ a b = if ltb_ℤ a b then b else a

-- the feedback that the first packet found begins, or the one at hand
abbrev pub on_demand : Recorder → ℤ → ℤ → ℤ → Option Feedback → ℕ → Feedback
on_demand r begin sn t none count =
    set_base (Feedback.new r.sender_ssrc r.media_ssrc count)
      (emod (max_ℤ begin (sn -ℤ max_missing_sequence_numbers)) 65536) t
on_demand r begin sn t (some f) count = f

abbrev pub next_count : Option Feedback → ℕ → ℕ
next_count none count = (count + 1) % 256
next_count (some f) count = count

-- `addReceived` has refused: of the first packet, or of a later one
abbrev pub refused : Option Feedback → ℤ → ℤ → ℕ → Built
refused none sn next count = record { feedback = none; start = sn; fb_pkt_cnt = count }
refused (some f) sn next count = record { feedback = some f; start = next; fb_pkt_cnt = count }

-- The loop with `k` rounds left, at `seq`.
pub build : ℕ → Recorder → ℤ → ℤ → ℕ → ℤ → Option Feedback → ℤ → ℕ → Built
unfolding find_next_at_or_after set_base add_received ◌+ℤ◌ ◌-ℤ◌ Feedback.new
build scale r begin end zero seq fb next count = record {
  feedback = fb;
  start = next;
  fb_pkt_cnt = count;
}
build scale r begin end (suc k) seq fb next count =
    elim (find_next_at_or_after r.arrival_time_map seq) [
      | none ↦ record { feedback = fb; start = next; fb_pkt_cnt = count }
      | some (sn, t) ↦ elim (ltb_ℤ sn end) [
        | false ↦ record { feedback = fb; start = next; fb_pkt_cnt = count }
        | true ↦ elim (add_received scale (on_demand r begin sn t fb count) (emod sn 65536) t) [
          | none ↦ refused fb sn next (next_count fb count)
          | some g ↦
              build scale r begin end k (sn +ℤ pos 1) (some g) (sn +ℤ pos 1) (next_count fb count)
        ]
      ]
    ]

unfoldable pub maybe_build_feedback_packet : ℕ → Recorder → ℤ → ℤ → Built
unfolding build span
maybe_build_feedback_packet scale r begin end =
    let from = clamp r.arrival_time_map begin in
    let to = clamp r.arrival_time_map end in
    build scale r begin to (span from to) from none begin r.fb_pkt_cnt

-- The loop of `BuildFeedbackPacket` with `k` rounds left: the packets (a packet whose loops would not
-- end is `none`), and the recorder.
pub build_all : ℕ → ℕ → Recorder → ℤ → ℤ → List (Option TransportLayerCc) × Recorder
unfolding maybe_build_feedback_packet get_rtcp
build_all scale zero r start end = ([], record r { start_sequence_number = some start })
build_all scale (suc k) r start end = elim (ltb_ℤ start end) [
  | false ↦ ([], record r { start_sequence_number = some start })
  | true ↦
      let b = maybe_build_feedback_packet scale r start end in
      let r' = record r { start_sequence_number = some b.start; fb_pkt_cnt = b.fb_pkt_cnt } in
      elim b.feedback [
        | none ↦ ([], r')
        | some f ↦ let (ps, r'') = build_all scale k r' b.start end in (get_rtcp f ∷ ps, r'')
      ]
]

abbrev pub build_from : ℕ → Recorder → Option ℤ → List (Option TransportLayerCc) × Recorder
build_from scale r none = ([], r)
build_from scale r (some start) =
    let end = r.arrival_time_map.end_sequence_number in
    let (ps, r') = build_all scale (span start end) r start end in
    (ps, record r' { packets_held = 0 })

unfoldable pub build_feedback_packet : ℕ → Recorder → List (Option TransportLayerCc) × Recorder
unfolding build_all span
build_feedback_packet scale r = build_from scale r r.start_sequence_number
