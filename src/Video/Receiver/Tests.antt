-- ===== src/Video/Receiver/Tests.antt =====
-- Packets of one stream, and two streams in the table.
use interceptor.Common.{◌≡◌, refl, some, none, List, [], ◌∷◌, arith, true, false}
use interceptor.Common.Int.{pos}
use interceptor.Video.PacketBuffer.{BufferedPacket}
use interceptor.Video.Assembler
use interceptor.Video.LayerInfo.{LayerInfo}
use interceptor.Video.Samples.{packet, empty}
use interceptor.Video.Receiver.{resolve_frames}
use interceptor.Video.Receiver.Streams.{
  ReceiverInterceptor, find_stream, fresh_state, bind_remote_stream, unbind_remote_stream,
  get_or_create_stream_state, bind_remote_stream_again,
}
use interceptor.Video.Receiver.Finders.{RanApart, resolve_frames-RanApart}

abbrev in_order : LayerInfo → LayerInfo
in_order m = m

abbrev frames : List (List BufferedPacket)
frames =
    (packet (pos 9) 5 true false ∷ packet (pos 10) 5 false true ∷ [])
    ∷ (packet (pos 11) 6 true true ∷ [])
    ∷ []

resolve_frames-RanApart_example :
    RanApart in_order Assembler.new
      (fresh_state empty)
      frames
      (resolve_frames in_order (fresh_state empty) frames)
resolve_frames-RanApart_example = resolve_frames-RanApart in_order frames (fresh_state empty)

abbrev two_streams : ReceiverInterceptor
two_streams = record {
  streams = (7, 1) ∷ (8, 0) ∷ [];
  states = fresh_state empty ∷ fresh_state empty ∷ [];
  packet_buffer_size = 64;
}

bind_remote_stream_again_example :
    (bind_remote_stream true two_streams 7 ≡ (some 1, two_streams))
    × (find_stream (unbind_remote_stream two_streams 7).streams 7 ≡ none)
    × (find_stream two_streams.streams 8 ≡ find_stream two_streams.streams 8)
    × (find_stream (unbind_remote_stream two_streams 7).streams 8
        ≡ find_stream two_streams.streams 8)
bind_remote_stream_again_example =
    bind_remote_stream_again two_streams 7 8 1 two_streams (λ e. absurd (omega (arith, e)))
      (unfold bind_remote_stream get_or_create_stream_state find_stream in refl)
