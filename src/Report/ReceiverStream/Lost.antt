-- ===== src/Report/ReceiverStream/Lost.antt =====
-- What a report counts as lost, after the packets that have come since the report before.
use Prim.Native.Nat.{min}
use native.Mathlib.Nat.{min-eq_left, min-eq_right}
use interceptor.Common.{
  ℕ, zero, suc, ◌+◌, ◌-◌, ◌%◌, ◌≤◌, ◌<◌, ◌≡◌, refl, sym, ap, ap₂, ◌∙◌, All, Bool, true, false, ◌||◌,
  List, [], ◌∷◌, map, ltb, ◌==◌, if◌then◌else◌, arith, if_elim, length, sub16, add16,
}
use interceptor.Report.{Floats, Header}
use interceptor.Report.ReceiverStream.{
  ReceiverStream, get_received, process_rtp, process_all, count_lost, total_lost_since_report,
  generate_report, at_most_max,
}
use interceptor.Report.ReceiverStream.Received.{IsStream, process_rtp-Processed}

-- whether `x` is one of the numbers
pub among : List ℕ → ℕ → Bool
among [] x = false
among (p ∷ ps) x = (p == x) || among ps x

pub highest : List ℕ → ℕ
highest [] = 0
highest (p ∷ ps) = let rest = highest ps in if ltb rest p then p else rest

-- how many of the `k` numbers from `x` on are not among `ps`
pub count_missing : List ℕ → ℕ → ℕ → ℕ
count_missing ps zero x = 0
count_missing ps (suc k) x =
    let rest = count_missing ps k (x + 1) in if among ps x then rest else 1 + rest

-- how many numbers below the highest one that came have not come
abbrev pub missing : List ℕ → ℕ
missing ps = count_missing ps (highest ps - 1) 1

at_most_max-min : (n : ℕ) → at_most_max n ≡ min n 16777215
at_most_max-min n =
    ground (arith, λ (l : n ≤ 16777215). min-eq_left l, λ (l : 16777215 ≤ n). min-eq_right l)

among-above : (ps : List ℕ) (x : ℕ) → highest ps < x → among ps x ≡ false
unfolding among highest
among-above [] x h = refl
among-above (p ∷ ps) x h = ground (arith, among-above ps x)

module _ {T F : Type 0} where
  -- The stream after the numbers `ps` after `base`, the number of the report before, have come;
  -- `c` is the count of that report.
  pub record Seen (c base : ℕ) (ps : List ℕ) (s : ReceiverStream T F) : Type 0 where
    pub started : s.started ≡ true
    pub size : s.size ≡ 128
    pub storage : length s.packets ≡ 128
    pub last : s.last_seqnum ≡ (base + highest ps) % 65536
    pub last_report : s.last_report_seqnum ≡ base
    pub lost : s.total_lost ≡ c
    pub few : highest ps ≤ 8192
    pub bits : (x : ℕ) → 0 < x → x ≤ highest ps → get_received s ((base + x) % 65536) ≡ among ps x

  Seen-IsStream :
      (c base : ℕ) (ps : List ℕ) (s : ReceiverStream T F)
      → base < 65536
      → Seen c base ps s
      → IsStream s
  Seen-IsStream c base ps s b v = record {
    size = v.size;
    storage = v.storage;
    last = omega (arith, v.last);
    last_report = omega (arith, v.last_report, b);
  }

  process_rtp-Seen :
      (fl : Floats T F) (now : T) (h : Header) (s : ReceiverStream T F) (c base p : ℕ) (ps : List ℕ)
      → base < 65536
      → h.sequence_number ≡ (base + p) % 65536
      → 0 < p
      → p ≤ 8192
      → Seen c base ps s
      → Seen c base (p ∷ ps) (process_rtp fl now h s)
  unfolding among highest
  process_rtp-Seen fl now h s c base p ps b e z l v =
      let seq = h.sequence_number in
      let q =
        process_rtp-Processed fl now h s (Seen-IsStream c base ps s b v) v.started
          (omega (arith, e)) in
      record {
        started = q.started;
        size = q.size;
        storage = q.storage;
        last = ground (arith, q.last, v.last, v.few);
        last_report = q.last_report ∙ v.last_report;
        lost = q.lost ∙ v.lost;
        few = ground (arith, v.few);
        bits = λ x a d.
            ground (arith, q.bits ((base + x) % 65536), v.bits x, among-above ps x, v.last, v.few);
      }

  count_lost-Seen :
      (c base : ℕ) (ps : List ℕ) (s : ReceiverStream T F) (k x : ℕ)
      → base < 65536
      → Seen c base ps s
      → 0 < x
      → k + x ≤ highest ps + 1
      → count_lost s k ((base + x) % 65536) ≡ count_missing ps k x
  unfolding count_lost count_missing
  count_lost-Seen c base ps s zero x b v z l = refl
  count_lost-Seen c base ps s (suc k) x b v z l =
      let e : add16 ((base + x) % 65536) 1 ≡ (base + (x + 1)) % 65536 = omega arith in
      ap
        (λ (i : ℕ).
          if get_received s ((base + x) % 65536) then count_lost s k i else 1 + count_lost s k i)
        e
      ∙ ap₂ (λ (r : Bool) (n : ℕ). if r then n else 1 + n) (v.bits x z (omega (arith, l)))
          (count_lost-Seen c base ps s k (x + 1) b v (omega arith) (omega (arith, l)))

  total_lost_since_report-Seen :
      (c base : ℕ) (ps : List ℕ) (s : ReceiverStream T F)
      → base < 65536
      → Seen c base ps s
      → total_lost_since_report s ≡ count_missing ps (highest ps - 1) 1
  unfolding total_lost_since_report count_missing
  total_lost_since_report-Seen c base ps s b v =
      if_elim (λ (n : ℕ). n ≡ count_missing ps (highest ps - 1) 1)
        (s.last_seqnum == s.last_report_seqnum) 0 _
        (λ e.
          let z : highest ps - 1 ≡ 0 = ground (arith, v.last, v.last_report, v.few) in
          sym (ap (λ (k : ℕ). count_missing ps k 1) z))
        (λ e.
          let start : add16 s.last_report_seqnum 1 ≡ (base + 1) % 65536 =
            omega (arith, v.last_report) in
          let k : sub16 s.last_seqnum (add16 s.last_report_seqnum 1) ≡ highest ps - 1 =
            ground (arith, v.last, v.last_report, v.few) in
          ap₂ (λ (n i : ℕ). count_lost s n i) k start
          ∙ count_lost-Seen c base ps s (highest ps - 1) 1 b v (omega arith) (omega arith))

-- The numbers of packets, from the one after `base` on.
pub offsets {ℓ} : {T : Type ℓ} → ℕ → List (T × Header) → List ℕ → List ℕ
offsets base [] ps = ps
offsets base (p ∷ packets) ps = offsets base packets (sub16 p.1.sequence_number base ∷ ps)

-- Each packet is one of the 8192 that come after `base`.
abbrev pub Near {ℓ} : {T : Type ℓ} → ℕ → T × Header → Type 0
Near base p =
    (p.1.sequence_number < 65536)
    × (0 < sub16 p.1.sequence_number base)
    × (sub16 p.1.sequence_number base ≤ 8192)

module _ {T F : Type 0} where
  process_all-Seen :
      (fl : Floats T F) (packets : List (T × Header)) (s : ReceiverStream T F) (c base : ℕ)
      (ps : List ℕ)
      → base < 65536
      → All (Near base) packets
      → Seen c base ps s
      → Seen c base (offsets base packets ps) (process_all fl packets s)
  unfolding process_all offsets
  process_all-Seen fl [] s c base ps b a v = v
  process_all-Seen fl (p ∷ packets) s c base ps b a v =
      let n = sub16 p.1.sequence_number base in
      process_all-Seen fl packets (process_rtp fl p.0 p.1 s) c base (n ∷ ps) b a.1
        (process_rtp-Seen fl p.0 p.1 s c base n ps b (omega (arith, a.0.0, b)) a.0.1 a.0.2 v)

  -- A stream of which all that has come has been reported.
  pub record IsReported (s : ReceiverStream T F) : Type 0 where
    pub stream : IsStream s
    pub started : s.started ≡ true
    pub last : s.last_report_seqnum ≡ s.last_seqnum

  IsReported-Seen : (s : ReceiverStream T F) → IsReported s → Seen s.total_lost s.last_seqnum [] s
  unfolding highest among
  IsReported-Seen s r = record {
    started = r.started;
    size = r.stream.size;
    storage = r.stream.storage;
    last = omega (arith, r.stream.last);
    last_report = r.last;
    lost = refl;
    few = omega arith;
    bits = λ x a d. absurd (omega (arith, a, d));
  }

  -- Packets that come after a report, in any order and any number of times, each one of the 8192
  -- numbers after the last one of that report: the next report counts as lost exactly the numbers
  -- between that last one and the highest one that came which did not come, and adds them to the count
  -- of before, modulo 2^32 and up to 16777215, the largest number of 24 bits. All that has come is then reported again.
  pub generate_report-process_all :
      (fl : Floats T F) (now : T) (packets : List (T × Header)) (s : ReceiverStream T F)
      → IsReported s
      → All (Near s.last_seqnum) packets
      → (total_lost_since_report (process_all fl packets s)
          ≡ missing (offsets s.last_seqnum packets []))
        × (map (λ r. r.total_lost) (generate_report fl now (process_all fl packets s)).0.reports
            ≡ min
                ((s.total_lost + missing (offsets s.last_seqnum packets [])) % 4294967296)
                16777215
              ∷ [])
        × IsReported (generate_report fl now (process_all fl packets s)).1
  unfolding generate_report
  generate_report-process_all fl now packets s r a =
      let base = s.last_seqnum in
      let t = process_all fl packets s in
      let ps = offsets base packets [] in
      let v =
        process_all-Seen fl packets s s.total_lost base [] r.stream.last a (IsReported-Seen s r) in
      let e = total_lost_since_report-Seen s.total_lost base ps t r.stream.last v in
      let w = Seen-IsStream s.total_lost base ps t r.stream.last v in
      (
        e,
        ap (λ (n : ℕ). n ∷ [])
              (at_most_max-min ((t.total_lost + total_lost_since_report t) % 4294967296))
            ∙ ap₂ (λ (m n : ℕ). min ((m + n) % 4294967296) 16777215 ∷ []) v.lost e,
        record {
          stream = record {
            size = w.size;
            storage = w.storage;
            last = w.last;
            last_report = w.last;
          };
          started = v.started;
          last = refl;
        },
      )
