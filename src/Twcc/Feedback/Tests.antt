-- ===== src/Twcc/Feedback/Tests.antt =====
-- Small feedback packets.
use interceptor.Common.{ℕ, ◌≡◌, refl, true, some, List, [], ◌∷◌, arith, All}
use interceptor.Common.Int.{ℤ, pos, sub_ℕ, ◌+ℤ◌, ◌-ℤ◌}
use interceptor.Common.Range.{for_range, rounds}
use interceptor.Twcc.Chunk.{
  not_received, small_delta, large_delta, Chunk, put, flush, can_add, add, encode,
}
use interceptor.Twcc.Chunk.Wire.{Fits}
use interceptor.Twcc.Chunk.Valid.{IsValid}
use interceptor.Twcc.Chunk.Flush.{Flushed, flush-Flushed}
use interceptor.Common.{false}
use interceptor.Twcc.Feedback.{
  new, set_base, add_all, add_received, get_rtcp, Feedback, TransportLayerCc, put_status, skip_to,
  receive, to_ticks,
}
use interceptor.Twcc.Feedback.Holds.{NearAll}
use interceptor.Twcc.Feedback.RoundTrip.{get_rtcp-add_all, arrivals}

-- past the wrap-around, with a gap, and the second one before the first
abbrev three : List (ℕ × ℤ)
three = (65534, pos 100300) ∷ (65535, pos 100020) ∷ (3, pos 220000) ∷ []

abbrev built : Feedback
built = record {
  sender_ssrc = 1;
  media_ssrc = 2;
  fb_pkt_count = 0;
  base_sequence_number = 65533;
  ref_timestamp_64ms = pos 1;
  last_timestamp_us = pos 220000;
  next_sequence_number = 4;
  sequence_number_count = 7;
  len = 5;
  last_chunk = record {
    has_large_delta = true;
    has_different_types = true;
    deltas =
        not_received ∷ small_delta ∷ large_delta ∷ not_received ∷ not_received ∷ not_received
        ∷ large_delta ∷ [];
  };
  chunks = [];
  deltas =
      record { type = small_delta; delta = pos 36250 }
      ∷ record { type = large_delta; delta = sub_ℕ 0 250 }
      ∷ record { type = large_delta; delta = pos 120000 }
      ∷ [];
}

built_is : add_all 250 (set_base (new 1 2 0) 65533 (pos 100300)) three ≡ some built
unfolding add_all set_base new add_received skip_to receive to_ticks put_status put can_add add
    encode for_range rounds ◌+ℤ◌ ◌-ℤ◌
built_is = refl

get_rtcp-add_all_example :
    (rep : TransportLayerCc) × (get_rtcp built ≡ some rep)
    × NearAll 125 three (arrivals rep)
    × All Fits rep.packet_chunks
get_rtcp-add_all_example =
    get_rtcp-add_all 250 1 2 0 65533 100300 three built (omega arith) (omega arith) (omega arith)
      (omega arith, (omega arith, (omega arith, tt))) (omega arith) built_is

-- more numbers in the last chunk than one vector of two bits holds
abbrev nine : Chunk
nine = record {
  has_large_delta = false;
  has_different_types = true;
  deltas =
      small_delta ∷ not_received ∷ small_delta ∷ small_delta ∷ not_received ∷ small_delta
      ∷ small_delta ∷ small_delta ∷ small_delta ∷ [];
}

nine-IsValid : IsValid nine
nine-IsValid = record {
  large = refl;
  different = refl;
  one = λ _. omega arith;
  two = λ _ f. absurd (ground arith);
  run = omega arith;
}

flush-Flushed_example : Flushed nine.deltas (flush 9 nine)
flush-Flushed_example = flush-Flushed 9 nine nine-IsValid (omega arith)
