-- ===== src/Report/ReceiverStream/Received.antt =====
-- The bits of the stream: what `processRTP` leaves of them.
use interceptor.Common.{
  ℕ, zero, suc, ◌+◌, ◌-◌, ◌*◌, ◌%◌, ◌<◌, ◌≡◌, refl, ap, ◌∙◌, Bool, true, false, not, ◌&&◌, ltb,
  ◌==◌, if◌then◌else◌, arith, if_elim, length, sub16, add16,
}
use interceptor.Common.Bits.{length-set_pos, length-clear_pos, test_pos-set_pos, test_pos-clear_pos}
use interceptor.Common.Range.{for_range, rounds}
use interceptor.Report.{Floats, Header}
use interceptor.Report.ReceiverStream.{
  ReceiverStream, position, set_received, del_received, get_received, move_on, update_jitter,
  process_rtp,
}

-- how many places of the ring of 8192 bits lie from the one of `i` to the one of `j`
abbrev pub ahead : ℕ → ℕ → ℕ
ahead i j = (j % 8192 + 8192 - i % 8192) % 8192

module _ {T F : Type 0} where
  -- 8192 bits, and counters that are uint16
  pub record IsStream (s : ReceiverStream T F) : Type 0 where
    pub size : s.size ≡ 128
    pub storage : length s.packets ≡ 128
    pub last : s.last_seqnum < 65536
    pub last_report : s.last_report_seqnum < 65536

  -- What the writes to the bits leave as it is.
  pub record SameCounters (s t : ReceiverStream T F) : Type 0 where
    pub started : t.started ≡ s.started
    pub size : t.size ≡ s.size
    pub storage : length t.packets ≡ length s.packets
    pub last : t.last_seqnum ≡ s.last_seqnum
    pub last_report : t.last_report_seqnum ≡ s.last_report_seqnum
    pub lost : t.total_lost ≡ s.total_lost

  position_lem : (s : ReceiverStream T F) (i : ℕ) → s.size ≡ 128 → position s i ≡ i % 8192
  position_lem s i e = ap (λ (z : ℕ). i % (z * 64 % 65536)) e

  set_received-SameCounters : (s : ReceiverStream T F) (i : ℕ) → SameCounters s (set_received s i)
  unfolding set_received
  set_received-SameCounters s i = ground (arith, length-set_pos s.packets (position s i))

  del_received-SameCounters : (s : ReceiverStream T F) (i : ℕ) → SameCounters s (del_received s i)
  unfolding del_received
  del_received-SameCounters s i = ground (arith, length-clear_pos s.packets (position s i))

  get_received-set_received :
      (s : ReceiverStream T F) (i j : ℕ)
      → s.size ≡ 128
      → length s.packets ≡ 128
      → get_received (set_received s i) j ≡ (if ahead i j == 0 then true else get_received s j)
  unfolding get_received set_received
  get_received-set_received s i j e l = ground (
    arith,
    position_lem s i e,
    position_lem s j e,
    test_pos-set_pos s.packets (position s i) (position s j),
  )

  get_received-del_received :
      (s : ReceiverStream T F) (i j : ℕ)
      → s.size ≡ 128
      → length s.packets ≡ 128
      → get_received (del_received s i) j ≡ (if ahead i j == 0 then false else get_received s j)
  unfolding get_received del_received
  get_received-del_received s i j e l = ground (
    arith,
    position_lem s i e,
    position_lem s j e,
    test_pos-clear_pos s.packets (position s i) (position s j),
  )

  rounds-SameCounters :
      (k i : ℕ) (s : ReceiverStream T F) → SameCounters s (rounds (λ n u. del_received u n) k i s)
  unfolding rounds
  rounds-SameCounters zero i s = ground arith
  rounds-SameCounters (suc k) i s =
      ground
        (arith, del_received-SameCounters s i, rounds-SameCounters k (add16 i 1) (del_received s i))

  -- The loop that sets missing packets as missing.
  rounds-get_received :
      (k i j : ℕ) (s : ReceiverStream T F)
      → s.size ≡ 128
      → length s.packets ≡ 128
      → get_received (rounds (λ n u. del_received u n) k i s) j
        ≡ (if ltb (ahead i j) k then false else get_received s j)
  unfolding rounds
  rounds-get_received zero i j s e l = ground arith
  rounds-get_received (suc k) i j s e l =
      let c = del_received-SameCounters s i in
      ground (
        arith,
        rounds-get_received k (add16 i 1) j (del_received s i) (c.size ∙ e) (c.storage ∙ l),
        get_received-del_received s i j e l,
      )

  -- whether `seq` moves the stream on
  abbrev pub is_newer : ReceiverStream T F → ℕ → Bool
  is_newer s seq = ltb 0 (sub16 seq s.last_seqnum) && ltb (sub16 seq s.last_seqnum) 32768

  -- What a call of `processRTP` after the first one leaves.
  pub record Processed (s t : ReceiverStream T F) (seq : ℕ) : Type 0 where
    pub started : t.started ≡ true
    pub size : t.size ≡ 128
    pub storage : length t.packets ≡ 128
    pub last : t.last_seqnum ≡ (if is_newer s seq then seq else s.last_seqnum)
    pub last_report : t.last_report_seqnum ≡ s.last_report_seqnum
    pub lost : t.total_lost ≡ s.total_lost
    pub bits :
        (j : ℕ)
        → get_received t j ≡ (
            if is_newer s seq && ltb (ahead (add16 s.last_seqnum 1) j) (sub16 seq s.last_seqnum - 1)
            then false
            else if ahead seq j == 0
            then true
            else get_received s j)

  get_received-ext :
      (s t : ReceiverStream T F) (j : ℕ)
      → t.packets ≡ s.packets
      → t.size ≡ s.size
      → get_received t j ≡ get_received s j
  unfolding get_received
  get_received-ext s t j e f = rw (e, f) refl

  move_on-Processed :
      (s : ReceiverStream T F) (seq : ℕ)
      → IsStream s
      → s.started ≡ true
      → seq < 65536
      → Processed s (move_on (set_received s seq) seq) seq
  unfolding move_on for_range set_received
  move_on-Processed s seq v st h =
      let c = set_received-SameCounters s seq in
      if_elim (λ (t : ReceiverStream T F). Processed s t seq) (is_newer s seq) _
        (set_received s seq)
        (λ e.
          let u = record (set_received s seq) {
            seqnum_cycles =
                if ltb seq s.last_seqnum then add16 s.seqnum_cycles 1 else s.seqnum_cycles;
          } in
          let k = sub16 seq (add16 s.last_seqnum 1) in
          let u' = rounds (λ n w. del_received w n) k (add16 s.last_seqnum 1) u in
          let d = rounds-SameCounters k (add16 s.last_seqnum 1) u in
          record {
            started = d.started ∙ (c.started ∙ st);
            size = d.size ∙ (c.size ∙ v.size);
            storage = d.storage ∙ (c.storage ∙ v.storage);
            last = ground arith;
            last_report = d.last_report ∙ c.last_report;
            lost = d.lost ∙ c.lost;
            bits = λ j. ground (
              arith,
              get_received-ext u' (record u' { last_seqnum = seq }) j refl refl,
              rounds-get_received k (add16 s.last_seqnum 1) j u (c.size ∙ v.size)
                  (c.storage ∙ v.storage),
              get_received-ext (set_received s seq) u j refl refl,
              get_received-set_received s seq j v.size v.storage,
            );
          })
        (λ e. record {
          started = c.started ∙ st;
          size = c.size ∙ v.size;
          storage = c.storage ∙ v.storage;
          last = ground (arith, c.last);
          last_report = c.last_report;
          lost = c.lost;
          bits = λ j. ground (arith, get_received-set_received s seq j v.size v.storage);
        })

  -- `processRTP` after the first packet.
  pub process_rtp-Processed :
      (fl : Floats T F) (now : T) (h : Header) (s : ReceiverStream T F)
      → IsStream s
      → s.started ≡ true
      → h.sequence_number < 65536
      → Processed s (process_rtp fl now h s) h.sequence_number
  unfolding process_rtp update_jitter
  process_rtp-Processed fl now h s v st l =
      let seq = h.sequence_number in
      let m = move_on (set_received s seq) seq in
      let p = move_on-Processed s seq v st l in
      let t = update_jitter fl now h m in
      if_elim (λ (z : ReceiverStream T F). Processed s z seq) (not s.started) _ t
        (λ e. absurd (ground arith))
        (λ e. record {
          started = p.started;
          size = p.size;
          storage = p.storage;
          last = p.last;
          last_report = p.last_report;
          lost = p.lost;
          bits = λ j. get_received-ext m t j refl refl ∙ p.bits j;
        })
