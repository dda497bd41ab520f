-- ===== src/Report/ReceiverStream/Jump.antt =====
-- A jump of `processRTP` past the whole ring of bits.
use interceptor.Common.{ℕ, ◌<◌, ◌≡◌, true, false, arith, sub16}
use interceptor.Report.{Floats, Header}
use interceptor.Report.ReceiverStream.{ReceiverStream, get_received, process_rtp}
use interceptor.Report.ReceiverStream.Received.{IsStream, process_rtp-Processed}

module _ {T F : Type 0} where
  -- A packet whose number is more than 8192, and less than 32768, after the last one: `processRTP`
  -- makes it the last one, but leaves no number that `getReceived` holds to have been received, the one
  -- of that packet included.
  pub process_rtp-get_received_jump :
      (fl : Floats T F) (now : T) (h : Header) (s : ReceiverStream T F) (j : ℕ)
      → IsStream s
      → s.started ≡ true
      → h.sequence_number < 65536
      → 8192 < sub16 h.sequence_number s.last_seqnum
      → sub16 h.sequence_number s.last_seqnum < 32768
      → (get_received (process_rtp fl now h s) j ≡ false)
        × ((process_rtp fl now h s).last_seqnum ≡ h.sequence_number)
  process_rtp-get_received_jump fl now h s j v st l a b =
      let q = process_rtp-Processed fl now h s v st l in
      (ground (arith, q.bits j), ground (arith, q.last))
