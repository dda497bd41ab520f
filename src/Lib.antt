-- ===== src/Lib.antt =====
-- Pion interceptor: RTP and RTCP processors for real-time communication.
--
-- The program is a set of interceptors that RTP packets pass through. Modelled here are the parts
-- that decide by sequence number what has arrived, what is missing, and what can be handed on. They
-- are plain state machines behind a mutex, so each method is a function from a state to its results
-- and the next state, and a run is a list of calls.
--
--   SequenceNumber  internal/sequencenumber/unwrapper.go: Unwrap, from uint16 to int64.
--   Nack            pkg/nack/receive_log.go: the bitmap of received packets (add, get,
--                   missingSeqNumbers), and the tick of generator_interceptor.go for one stream
--                   (Nack/Generator), which decides by it what to request again.
--   RtpBuffer       internal/rtpbuffer: the last packets sent, with the counts of their holders
--                   (RTPBuffer, RetainablePacket), from which the NACK responder sends again.
--   Video           pkg/videoframe: packets to frames to frames with references. The reader of
--                   receiver_interceptor.go (Video/Receiver) unwraps the sequence number
--                   (Video/Unwrap), inserts the packet into the ring of packet_buffer.go
--                   (Video/PacketBuffer), assembles each frame that is complete
--                   (Video/Assembler), and gives it to the reference finder that fits its header:
--                   by sequence number (Video/SeqNumFinder), by picture id (Video/FrameIdFinder)
--                   or by temporal layer (Video/Vp8Finder, whose layer table is
--                   Video/LayerInfo). The first and the last keep frames that come too early in a
--                   stash (Video/Stash). Video/Header is video_header.go, Video/Frame the
--                   EncodedFrame of frame_assembler.go.
--   Jitter          pkg/jitterbuffer: the linked list of priority_queue.go (Jitter/Queue), and on it
--                   the playout of jitter_buffer.go (Jitter/Buffer).
--   Twcc            pkg/twcc: the recorder of twcc.go (Twcc/Recorder), which notes the arrival of each
--                   packet in the ring of arrival_time_map.go (Twcc/ArrivalTimeMap) under the number
--                   that the unwrapper gives it, and builds from it feedback packets
--                   (Twcc/Feedback) of status chunks (Twcc/Chunk).
--   Rfc8888         pkg/rfc8888: stream_log.go (Rfc8888/StreamLog), which reports each packet of a
--                   stream once it has come, and recorder.go (Rfc8888/Recorder), which shares the
--                   room of a report among the streams.
--   FlexFec         pkg/flexfec/flexfec_coverage.go (FlexFec/Coverage) on the masks of
--                   util/bitarray.go (FlexFec/BitArray): which media packets a repair packet
--                   protects.
--   Report          pkg/report/receiver_stream.go (Report/ReceiverStream): which of the last 8192 packets
--                   have come, and the report of those that are missing; sender_stream.go
--                   (Report/SenderStream): the report of what has been sent, with ToNTP of
--                   internal/ntp/ntp.go.
--   Common          numbers, lists, bits and loops that these share. Go's uint16 and uint32 are native
--                   numbers with their wrap-around written out; int64 is a signed integer without
--                   bounds. A read or write outside a slice is given a value where it is defined.
--
-- A child module holds the proofs about its parent, and Tests modules run the code on small
-- inputs. A pointer that is shared is an index into a list (the streams of the receiver, the
-- nodes of the queue, the packets of RtpBuffer); frames and packets are values elsewhere, since
-- each is reached from one place at a time. Loops are recursions on a number of rounds: for a
-- loop over uint16 the distance to its end, for the loops of the packet buffer the size of the
-- ring, which is their own bound in the code, for the loop over a stash its length, for a walk
-- over the linked list the number of nodes, for the loops of the feedback the statuses that wait
-- and the numbers up to the end of the range. Each round over a stash takes a frame out of it; a walk
-- of more steps than there are nodes has come back to a node, and the result says that the call
-- never returns. The parsers of RTP and VP8, the order in which Go ranges over a map, the instants
-- of RFC 8888, the floating point numbers and the times of the reports, and the media packets of
-- FlexFEC are parameters.
--
-- Not modelled: the interceptors that are goroutines and I/O around these parts, the estimators in
-- floating point arithmetic (pkg/gcc, pkg/stats), and the bytes of FlexFEC packets and their decoding.
pub mod Common
pub mod SequenceNumber
pub mod Jitter
pub mod RtpBuffer
pub mod Nack
pub mod Twcc
pub mod Rfc8888
pub mod FlexFec
pub mod Report
pub mod Video
