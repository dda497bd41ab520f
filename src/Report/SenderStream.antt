-- ===== src/Report/SenderStream.antt =====
-- pkg/report/sender_stream.go: what has been sent of a stream, and the report of it; and `ToNTP` of
-- internal/ntp/ntp.go. Times and float64 are parameters.
use interceptor.Common.{
  ℕ, ◌+◌, ◌*◌, ◌%◌, ◌<◌, ◌≡◌, refl, Bool, ◌&&◌, ◌||◌, List, [], ◌∷◌, ltb, ◌==◌, if◌then◌else◌,
  arith, if_elim, length, sub16, uint16_size_half,
}
use interceptor.Report.{Floats, Header}
use Prim.Native.Nat.{bit_or}

pub record SenderStream (T F : Type 0) : Type 0 where
  pub ssrc : ℕ
  pub clock_rate : F
  pub use_latest_packet : Bool
  pub last_rtp_time_rtp : ℕ
  pub last_rtp_time_time : T
  pub last_rtp_sn : ℕ
  pub packet_count : ℕ
  pub octet_count : ℕ

pub record SenderReport : Type 0 where
  pub ssrc : ℕ
  pub ntp_time : ℕ
  pub rtp_time : ℕ
  pub packet_count : ℕ
  pub octet_count : ℕ

module _ {T F : Type 0} where
  -- `ToNTP`: seconds since 1900 in the upper 32 bits, the fraction in the lower ones
  unfoldable to_ntp : Floats T F → T → ℕ
  to_ntp fl t =
      let s = fl.plus (fl.over (fl.unix_nano t) (fl.of_nat 1000000000)) (fl.of_nat 2208988800) in
      let integer = fl.to_uint32 s in
      let fraction =
        fl.to_uint32 (fl.times (fl.minus s (fl.of_nat integer)) (fl.of_nat 4294967295)) in
      bit_or (integer * 4294967296) fraction

  unfoldable new_sender_stream : Floats T F → ℕ → ℕ → Bool → SenderStream T F
  new_sender_stream fl ssrc rate latest = record {
    ssrc = ssrc;
    clock_rate = fl.of_nat rate;
    use_latest_packet = latest;
    last_rtp_time_rtp = 0;
    last_rtp_time_time = fl.zero_time;
    last_rtp_sn = 0;
    packet_count = 0;
    octet_count = 0;
  }

  -- whether a packet is to be considered for the time of the report
  unfoldable is_considered : SenderStream T F → ℕ → Bool
  is_considered s seq =
      let diff = sub16 seq s.last_rtp_sn in
      s.use_latest_packet || s.packet_count == 0 || ltb 0 diff && ltb diff uint16_size_half

  unfoldable consider : T → Header → SenderStream T F → SenderStream T F
  unfolding is_considered
  consider now h s =
      if is_considered s h.sequence_number
      then (let t = record s { last_rtp_sn = h.sequence_number } in
          if h.timestamp == s.last_rtp_time_rtp
          then t
          else record t { last_rtp_time_rtp = h.timestamp; last_rtp_time_time = now })
      else s

  -- `processRTP`, with the length of the payload
  unfoldable process_rtp : T → Header → ℕ → SenderStream T F → SenderStream T F
  unfolding consider
  process_rtp now h payload s =
      let t = consider now h s in
      record t {
        packet_count = (t.packet_count + 1) % 4294967296;
        octet_count = (t.octet_count + payload % 4294967296) % 4294967296;
      }

  unfoldable generate_report : Floats T F → T → SenderStream T F → SenderReport
  unfolding to_ntp
  generate_report fl now s = record {
    ssrc = s.ssrc;
    ntp_time = to_ntp fl now;
    rtp_time =
        (s.last_rtp_time_rtp
          + fl.to_uint32 (fl.times (fl.seconds_between now s.last_rtp_time_time) s.clock_rate))
        % 4294967296;
    packet_count = s.packet_count;
    octet_count = s.octet_count;
  }

  -- Packets with their times and the lengths of their payloads, one after the other.
  process_all : List (T × Header × ℕ) → SenderStream T F → SenderStream T F
  process_all [] s = s
  process_all (p ∷ ps) s = process_all ps (process_rtp p.0 p.1 p.2 s)

-- the bytes of the payloads
octets {ℓ} : {T : Type ℓ} → List (T × Header × ℕ) → ℕ
octets [] = 0
octets (p ∷ ps) = p.2 + octets ps

module _ {T F : Type 0} where
  consider_counts :
      (now : T) (h : Header) (s : SenderStream T F)
      → ((consider now h s).packet_count ≡ s.packet_count)
        × ((consider now h s).octet_count ≡ s.octet_count)
  unfolding consider
  consider_counts now h s =
      if_elim
        (λ (t : SenderStream T F).
          (t.packet_count ≡ s.packet_count) × (t.octet_count ≡ s.octet_count))
        (is_considered s h.sequence_number) _ s
        (λ e.
          if_elim
            (λ (t : SenderStream T F).
              (t.packet_count ≡ s.packet_count) × (t.octet_count ≡ s.octet_count))
            (h.timestamp == s.last_rtp_time_rtp) _ _ (λ f. (refl, refl)) (λ f. (refl, refl)))
        (λ e. (refl, refl))

  -- The report counts all the packets and all their bytes, up to the wrap-around of a uint32.
  generate_report_lem :
      (fl : Floats T F) (now : T) (ps : List (T × Header × ℕ)) (s : SenderStream T F)
      → s.packet_count < 4294967296
      → s.octet_count < 4294967296
      → ((generate_report fl now (process_all ps s)).packet_count
          ≡ (s.packet_count + length ps) % 4294967296)
        × ((generate_report fl now (process_all ps s)).octet_count
            ≡ (s.octet_count + octets ps) % 4294967296)
  unfolding generate_report process_all process_rtp octets
  generate_report_lem fl now [] s h l = ground arith
  generate_report_lem fl now (p ∷ ps) s h l =
      ground (
        arith,
        consider_counts p.0 p.1 s,
        generate_report_lem fl now ps (process_rtp p.0 p.1 p.2 s),
      )
