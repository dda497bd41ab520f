-- ===== src/Jitter/Buffer.antt =====
-- pkg/jitterbuffer/jitter_buffer.go: packets wait until enough have come, then go out at the playout
-- head. The listeners are outside: a call also gives the events that it emits.
pub mod Playout
mod Tests
use interceptor.Common.{
  ℕ, zero, suc, ◌+◌, ◌%◌, Bool, true, false, not, ◌&&◌, Option, none, some, List, [], ◌∷◌, ◌++◌,
  leb, ltb, ◌==◌, if◌then◌else◌, add16,
}
use interceptor.Jitter.Queue
use interceptor.Jitter.Queue.{
  PriorityQueue, Packet, Result, ok, failed, hangs, pop_while_buffering, buffer_underrun, Error,
}

-- `State`
pub data State : Type 0 where
  buffering : State
  emitting : State

-- `Event`
pub data Event : Type 0 where
  start_buffering : Event
  begin_playback : Event
  buffer_underflow : Event
  buffer_overflow : Event

-- counts are uint32
pub record Stats : Type 0 where
  pub out_of_order_count : ℕ
  pub underflow_count : ℕ
  pub overflow_count : ℕ

pub record JitterBuffer : Type 0 where
  pub packets : PriorityQueue
  pub min_start_count : ℕ
  pub overflow_len : ℕ
  pub last_sequence : ℕ
  pub playout_head : ℕ
  pub playout_ready : Bool
  pub state : State
  pub stats : Stats

abbrev pub no_stats : Stats
no_stats = record { out_of_order_count = 0; underflow_count = 0; overflow_count = 0 }

-- `New`, and `WithMinimumPacketCount`
abbrev pub new : JitterBuffer
new = record {
  packets = Queue.new;
  min_start_count = 50;
  overflow_len = 100;
  last_sequence = 0;
  playout_head = 0;
  playout_ready = false;
  state = buffering;
  stats = no_stats;
}

unfoldable pub with_minimum_packet_count : ℕ → JitterBuffer → JitterBuffer
with_minimum_packet_count count jb = record jb { min_start_count = count }

-- `SetPlayoutHead`
unfoldable pub set_playout_head : JitterBuffer → ℕ → JitterBuffer
set_playout_head jb playout_head = record jb { playout_head = playout_head }

abbrev pub is_buffering : State → Bool
is_buffering buffering = true
is_buffering emitting = false

abbrev pub inc32 : ℕ → ℕ
inc32 n = (n + 1) % 4294967296

-- `updateStats`
unfoldable pub update_stats : JitterBuffer → ℕ → JitterBuffer
update_stats jb seq =
    if ltb 0 jb.packets.length && not (seq == add16 jb.last_sequence 1)
    then record jb {
      last_sequence = seq;
      stats = record (jb.stats) { out_of_order_count = inc32 jb.stats.out_of_order_count };
    }
    else record jb { last_sequence = seq }

-- `updateState`
unfoldable pub update_state : JitterBuffer → List Event × JitterBuffer
update_state jb =
    if leb jb.min_start_count jb.packets.length && is_buffering jb.state
    then (begin_playback ∷ [], record jb { state = emitting; playout_ready = true })
    else ([], jb)

-- the steps of `Push` before the packet goes into the queue
unfoldable pub prepare : JitterBuffer → Packet → List Event × JitterBuffer
unfolding update_stats
prepare jb packet =
    let started = if jb.packets.length == 0 then start_buffering ∷ [] else [] in
    let full = ltb jb.overflow_len jb.packets.length in
    let overflow = if full then buffer_overflow ∷ [] else [] in
    let counted =
      if full
      then record jb {
        stats = record (jb.stats) { overflow_count = inc32 jb.stats.overflow_count };
      }
      else jb in
    let headed =
      if not jb.playout_ready && jb.packets.length == 0
      then record counted { playout_head = packet.sequence_number }
      else counted in
    (started ++ overflow, update_stats headed packet.sequence_number)

-- `Push`, where `none` is that it never returns
unfoldable pub push : JitterBuffer → Packet → Option (List Event × JitterBuffer)
push jb packet =
    let (events, jb') = prepare jb packet in
    elim (Queue.push jb'.packets packet packet.sequence_number) [
      | none ↦ none
      | some q ↦
          let (more, jb'') = update_state (record jb' { packets = q }) in
          some (events ++ more, jb'')
    ]

-- `Peek`
unfoldable pub peek : JitterBuffer → Bool → Result (Option Packet)
peek jb playout_head =
    if ltb jb.packets.length 1
    then failed buffer_underrun
    else if playout_head && not (is_buffering jb.state)
    then Queue.find jb.packets jb.playout_head
    else Queue.find jb.packets jb.last_sequence

-- `PeekAtSequence`
unfoldable pub peek_at_sequence : JitterBuffer → ℕ → Result (Option Packet)
peek_at_sequence jb sq = Queue.find jb.packets sq

-- what the pops do with the answer of the queue, where `head` is the playout head afterwards
abbrev pub finish_pop :
    JitterBuffer
    → ℕ
    → Result (Option Packet) × PriorityQueue
    → Result (Option Packet) × List Event × JitterBuffer
finish_pop jb head (ok p, q) =
    let (events, jb') = update_state (record jb { packets = q; playout_head = head }) in
    (ok p, events, jb')
finish_pop jb head (failed e, q) = (
  failed e,
  buffer_underflow ∷ [],
  record jb {
    packets = q;
    stats = record (jb.stats) { underflow_count = inc32 jb.stats.underflow_count };
  },
)
finish_pop jb head (hangs, q) = (hangs, [], jb)

-- `PopAtSequence`
unfoldable pub pop_at_sequence :
    JitterBuffer → ℕ → Result (Option Packet) × List Event × JitterBuffer
pop_at_sequence jb sq =
    if is_buffering jb.state
    then (failed pop_while_buffering, [], jb)
    else finish_pop jb (add16 jb.playout_head 1) (Queue.pop_at jb.packets sq)

-- `Pop`
unfoldable pub pop : JitterBuffer → Result (Option Packet) × List Event × JitterBuffer
unfolding pop_at_sequence
pop jb = pop_at_sequence jb jb.playout_head

-- `PopAtTimestamp`, which leaves the playout head
unfoldable pub pop_at_timestamp :
    JitterBuffer → ℕ → Result (Option Packet) × List Event × JitterBuffer
pop_at_timestamp jb ts =
    if is_buffering jb.state
    then (failed pop_while_buffering, [], jb)
    else finish_pop jb jb.playout_head (Queue.pop_at_timestamp jb.packets ts)

-- `Clear`, where `none` is that it never returns
unfoldable pub clear : JitterBuffer → Bool → Option JitterBuffer
clear jb reset_state = elim (Queue.clear jb.packets) [
  | none ↦ none
  | some q ↦
      if reset_state
      then some (record jb {
        packets = q;
        last_sequence = 0;
        state = buffering;
        stats = no_stats;
        min_start_count = 50;
      })
      else some (record jb { packets = q })
]
