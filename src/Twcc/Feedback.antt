-- ===== src/Twcc/Feedback.antt =====
-- pkg/twcc/twcc.go, feedback: one feedback packet while it is built. `scale` stands for the RTCP
-- library's TypeTCCDeltaScaleFactor, the microseconds of a tick.
pub mod Decode
pub mod Rounding
pub mod Holds
pub mod Received
pub mod RoundTrip
mod Tests
use interceptor.Common.{
  ℕ, zero, suc, ◌+◌, ◌-◌, ◌*◌, ◌/◌, ◌%◌, Bool, true, false, not, ◌&&◌, ◌||◌, Option, none, some,
  List, [], ◌∷◌, ◌++◌, ◌==◌, if◌then◌else◌, length, add16,
}
use interceptor.Common.Int.{ℤ, pos, sub_ℕ, ◌+ℤ◌, ◌-ℤ◌, ltb_ℤ, leb_ℤ, emod, quot, mul_ℕ}
use interceptor.Common.Range.{for_range}
use interceptor.Twcc.Chunk.{
  Symbol, not_received, small_delta, large_delta, StatusChunk, Chunk, empty, put, flush,
}

pub record RecvDelta : Type 0 where
  pub type : Symbol
  pub delta : ℤ

pub record Feedback : Type 0 where
  pub sender_ssrc : ℕ
  pub media_ssrc : ℕ
  pub fb_pkt_count : ℕ
  pub base_sequence_number : ℕ
  pub ref_timestamp_64ms : ℤ
  pub last_timestamp_us : ℤ
  pub next_sequence_number : ℕ
  pub sequence_number_count : ℕ
  pub len : ℕ
  pub last_chunk : Chunk
  pub chunks : List StatusChunk
  pub deltas : List RecvDelta

-- `newFeedback`
unfoldable pub new : ℕ → ℕ → ℕ → Feedback
new sender media count = record {
  sender_ssrc = sender;
  media_ssrc = media;
  fb_pkt_count = count;
  base_sequence_number = 0;
  ref_timestamp_64ms = pos 0;
  last_timestamp_us = pos 0;
  next_sequence_number = 0;
  sequence_number_count = 0;
  len = 0;
  last_chunk = empty;
  chunks = [];
  deltas = [];
}

unfoldable pub set_base : Feedback → ℕ → ℤ → Feedback
set_base f sequence_number time_us = record f {
  base_sequence_number = sequence_number;
  next_sequence_number = sequence_number;
  ref_timestamp_64ms = quot time_us 64000;
  last_timestamp_us = mul_ℕ (quot time_us 64000) 64000;
}

-- the steps that follow a status: the chunk that is full is written out, and the count goes up
unfoldable pub put_status : Feedback → Symbol → Feedback
put_status f s =
    let (ss, c) = put f.last_chunk s in
    record f {
      chunks = f.chunks ++ ss;
      last_chunk = c;
      sequence_number_count = add16 f.sequence_number_count 1;
    }

-- the loop over the numbers that have not come before `sequence_number`
unfoldable pub skip_to : Feedback → ℕ → Feedback
unfolding put_status
skip_to f sequence_number =
    for_range (λ i g. record (put_status g not_received) { next_sequence_number = add16 i 1 })
      f.next_sequence_number sequence_number f

-- the microseconds since the last packet, rounded to ticks
unfoldable pub to_ticks : ℕ → ℤ → ℤ
unfolding ◌+ℤ◌ ◌-ℤ◌
to_ticks scale delta_us =
    if leb_ℤ (pos 0) delta_us
    then quot (delta_us +ℤ pos (scale / 2)) scale
    else quot (delta_us -ℤ pos (scale / 2)) scale

-- the number that has come, `ticks` after the last one
unfoldable pub receive : ℕ → Feedback → ℤ → Feedback
unfolding put_status ◌+ℤ◌
receive scale f ticks =
    let small = leb_ℤ (pos 0) ticks && leb_ℤ ticks (pos 255) in
    let recv_delta = if small then small_delta else large_delta in
    record (put_status f recv_delta) {
      len = f.len + (if small then 1 else 2);
      deltas = f.deltas ++ (record { type = recv_delta; delta = mul_ℕ ticks scale } ∷ []);
      last_timestamp_us = f.last_timestamp_us +ℤ mul_ℕ ticks scale;
      next_sequence_number = add16 f.next_sequence_number 1;
    }

-- `addReceived`; `none` is its false: the delta does not fit into 16 bits
unfoldable pub add_received : ℕ → Feedback → ℕ → ℤ → Option Feedback
unfolding skip_to to_ticks receive ◌-ℤ◌
add_received scale f sequence_number timestamp_us =
    let ticks = to_ticks scale (timestamp_us -ℤ f.last_timestamp_us) in
    if ltb_ℤ ticks (sub_ℕ 0 32768) || ltb_ℤ (pos 32767) ticks
    then none
    else some (receive scale (skip_to f sequence_number) ticks)

pub record TransportLayerCc : Type 0 where
  pub sender_ssrc : ℕ
  pub media_ssrc : ℕ
  pub fb_pkt_count : ℕ
  pub base_sequence_number : ℕ
  pub packet_status_count : ℕ
  pub reference_time : ℕ
  pub packet_chunks : List StatusChunk
  pub recv_deltas : List RecvDelta
  pub padding : Bool
  pub header_length : ℕ

-- `for padLen%4 != 0 { padLen++ }`, of `k` rounds at most
pub round_up : ℕ → ℕ → ℕ
round_up zero n = n
round_up (suc k) n = let rest = round_up k (n + 1) in if n % 4 == 0 then n else rest

abbrev pub finish : Feedback → Option (List StatusChunk) → Option TransportLayerCc
finish f none = none
finish f (some rest) =
    let chunks = f.chunks ++ rest in
    let pad_len = 20 + length chunks * 2 + f.len in
    some (record {
      sender_ssrc = f.sender_ssrc;
      media_ssrc = f.media_ssrc;
      fb_pkt_count = f.fb_pkt_count;
      base_sequence_number = f.base_sequence_number;
      packet_status_count = f.sequence_number_count;
      reference_time = emod f.ref_timestamp_64ms 4294967296;
      packet_chunks = chunks;
      recv_deltas = f.deltas;
      padding = not (pad_len % 4 == 0);
      header_length = (round_up 3 pad_len / 4 - 1) % 65536;
    })

-- `getRTCP`; `none` if a loop would not end
unfoldable pub get_rtcp : Feedback → Option TransportLayerCc
get_rtcp f = finish f (flush (length f.last_chunk.deltas) f.last_chunk)

abbrev pub and_then : Option Feedback → (Feedback → Option Feedback) → Option Feedback
and_then none k = none
and_then (some f) k = k f

-- `addReceived` of the arrivals one after the other, as long as none is refused
pub add_all : ℕ → Feedback → List (ℕ × ℤ) → Option Feedback
unfolding add_received
add_all scale f [] = some f
add_all scale f (x ∷ xs) = and_then (add_received scale f x.0 x.1) (λ g. add_all scale g xs)
