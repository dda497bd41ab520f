-- ===== src/Rfc8888/StreamLog/Report.antt =====
-- `metricsAfter` as a whole.
use interceptor.Common.{
  ℕ, ◌≡◌, refl, sym, subst, ap, ◌⊎◌, ◌∙◌, inl, inr, Bool, false, Option, some, if◌then◌else◌, arith,
  Bool-cases, if_elim,
}
use interceptor.Common.Int.{
  ℤ, pos, negsuc, pos_part, ◌+ℤ◌, ◌-ℤ◌, ◌≤ℤ◌, ◌<ℤ◌, ltb_ℤ, emod, +ℤ_parts, -ℤ_parts, eq_of_parts,
}
use interceptor.Rfc8888.StreamLog.{
  Clock, StreamLog, ReportBlock, run, cut, num_reports, is_empty, finish, metrics_after,
}
use interceptor.Rfc8888.StreamLog.Reported.{expected, leading, Delivered, run-Delivered}
use interceptor.Rfc8888.StreamLog.Told.{
  told_all, in_a_row, expected-told_all, leading-in_a_row, Delivered-log,
}

pos-pos_part : (a : ℤ) → pos 0 ≤ℤ a → pos (pos_part a) ≡ a
pos-pos_part (pos n) h = refl
pos-pos_part (negsuc n) h = absurd (omega (arith, h))

module _ {T : Type 0} (c : Clock T) (reference : T) where
  -- The report over `n` numbers from `begin` on, of a log whose numbers to report begin there.
  record CutReports (begin : ℤ) (n : ℕ) (l : StreamLog T) (o : Option (ReportBlock × StreamLog T))
      : Type 0 where
    pub block : ReportBlock
    pub after : StreamLog T
    pub is : o ≡ some (block, after)
    pub media : block.media_ssrc ≡ l.ssrc
    pub begins : block.begin_sequence ≡ emod begin 65536
    pub blocks : block.metric_blocks ≡ expected c reference l.log n begin
    pub delivered : Delivered c reference begin (leading c reference l.log n begin) l after

  log-cut : (l : StreamLog T) (max : ℤ) → (cut l max).log ≡ l.log
  unfolding cut
  log-cut l max = if_elim (λ (k : StreamLog T). k.log ≡ l.log) _ _ l (λ e. refl) (λ e. refl)

  last-cut :
      (l : StreamLog T) (max : ℤ)
      → (cut l max).last_sequence_number_received ≡ l.last_sequence_number_received
  unfolding cut
  last-cut l max =
      if_elim
        (λ (k : StreamLog T). k.last_sequence_number_received ≡ l.last_sequence_number_received) _ _
        l (λ e. refl) (λ e. refl)

  reported :
      (l l' : StreamLog T) (n : ℕ) (max : ℤ)
      → CutReports l'.next_sequence_number_to_report n l' (
          some (
            finish l' (
              run c reference n l'.next_sequence_number_to_report (record {
                stream = l';
                last_received = l'.next_sequence_number_to_report;
                gap_detected = false;
              }))))
  reported l l' n max =
      let i = l'.next_sequence_number_to_report in
      let q =
        run-Delivered c reference n i
          (record { stream = l'; last_received = i; gap_detected = false }) refl refl
          (omega (arith, +ℤ_parts i (pos 1))) in
      record {
        block = _;
        after = _;
        is = refl;
        media = refl;
        begins = refl;
        blocks = q.0;
        delivered = q.1;
      }

  total :
      (l : StreamLog T) (max : ℤ)
      → (cut l max).next_sequence_number_to_report +ℤ num_reports l max
        ≡ l.last_sequence_number_received +ℤ pos 1
  unfolding cut
  total l max =
      let last = l.last_sequence_number_received in
      let next = l.next_sequence_number_to_report in
      let n = last -ℤ next +ℤ pos 1 in
      let both = λ (b : Bool).
        (if b
          then record l { next_sequence_number_to_report = last -ℤ max +ℤ pos 1 }
          else l).next_sequence_number_to_report
        +ℤ (if b then max else n) in
      let one = +ℤ_parts last (pos 1) in
      elim (Bool-cases (ltb_ℤ max n)) [
        | inl e ↦
            ap both e
            ∙ eq_of_parts _ _ (
                omega (
                  arith,
                  one,
                  +ℤ_parts (last -ℤ max +ℤ pos 1) max,
                  +ℤ_parts (last -ℤ max) (pos 1),
                  -ℤ_parts last max,
                ))
        | inr e ↦
            ap both e
            ∙ eq_of_parts _ _ (
                omega (
                  arith,
                  one,
                  +ℤ_parts next n,
                  +ℤ_parts (last -ℤ next) (pos 1),
                  -ℤ_parts last next,
                ))
      ]

  metrics_after-CutReports :
      (l : StreamLog T) (max : ℤ)
      → is_empty l.log ≡ false
      → pos 0 ≤ℤ num_reports l max
      → CutReports
          (cut l max).next_sequence_number_to_report
          (pos_part (num_reports l max))
          (cut l max)
          (metrics_after c l reference max)
        × ((cut l max).log ≡ l.log)
        × ((cut l max).next_sequence_number_to_report +ℤ num_reports l max
            ≡ l.last_sequence_number_received +ℤ pos 1)
  unfolding metrics_after
  metrics_after-CutReports l max e h = (
    if_elim (CutReports (cut l max).next_sequence_number_to_report _ (cut l max)) (is_empty l.log) _
        _ (λ f. absurd (ground arith))
        (λ f.
          if_elim (CutReports (cut l max).next_sequence_number_to_report _ (cut l max))
            (ltb_ℤ (num_reports l max) (pos 0)) _ _ (λ g. absurd (ground arith))
            (λ g. reported l (cut l max) (pos_part (num_reports l max)) max)),
    log-cut l max,
    total l max,
  )

  -- What `cut` and `num_reports` come to.
  record Chosen (l : StreamLog T) (max begin n : ℤ) : Type 0 where
    not_before : l.next_sequence_number_to_report ≤ℤ begin
    bounded : n ≤ℤ max
    full : (begin ≡ l.next_sequence_number_to_report) ⊎ (n ≡ max)

  cut-Chosen :
      (l : StreamLog T) (max : ℤ)
      → Chosen l max (cut l max).next_sequence_number_to_report (num_reports l max)
  unfolding cut
  cut-Chosen l max =
      let last = l.last_sequence_number_received in
      let next = l.next_sequence_number_to_report in
      let n = last -ℤ next +ℤ pos 1 in
      let a = +ℤ_parts (last -ℤ next) (pos 1) in
      let b = -ℤ_parts last next in
      let P = λ (b : Bool).
        Chosen l max
          ((if b
            then record l { next_sequence_number_to_report = last -ℤ max +ℤ pos 1 }
            else l).next_sequence_number_to_report)
          (if b then max else n) in
      elim (Bool-cases (ltb_ℤ max n)) [
        | inl e ↦ subst P (sym e) (record {
          not_before =
              let less : max <ℤ n = ground arith in
              omega (arith, less, a, b, +ℤ_parts (last -ℤ max) (pos 1), -ℤ_parts last max);
          bounded = omega arith;
          full = inr refl;
        })
        | inr e ↦
            subst P (sym e)
              (record { not_before = omega arith; bounded = ground arith; full = inl refl })
      ]

  ssrc-cut : (l : StreamLog T) (max : ℤ) → (cut l max).ssrc ≡ l.ssrc
  unfolding cut
  ssrc-cut l max = if_elim (λ (k : StreamLog T). k.ssrc ≡ l.ssrc) _ _ l (λ e. refl) (λ e. refl)

  -- A report over `count` numbers from `begin` on up to the last one received, at most `max`, and less
  -- than all that are to be reported only when there are `max`; and the stream log after it.
  pub record Reports (l : StreamLog T) (max : ℤ) (o : Option (ReportBlock × StreamLog T))
      : Type 0 where
    pub begin : ℤ
    pub count : ℕ
    pub block : ReportBlock
    pub after : StreamLog T
    pub is : o ≡ some (block, after)
    pub media : block.media_ssrc ≡ l.ssrc
    pub begins : block.begin_sequence ≡ emod begin 65536
    pub to_last : begin +ℤ pos count ≡ l.last_sequence_number_received +ℤ pos 1
    pub not_before : l.next_sequence_number_to_report ≤ℤ begin
    pub bounded : pos count ≤ℤ max
    pub full : (begin ≡ l.next_sequence_number_to_report) ⊎ (pos count ≡ max)
    pub blocks : block.metric_blocks ≡ told_all c reference l.log count begin
    pub delivered : Delivered c reference begin (in_a_row c reference l.log count begin) l after

  -- On a log that holds a packet, with room for `max` reports, not negative, and a next number to report
  -- that is at most one past the last one received, `metricsAfter` returns a report with one block for
  -- each number of a range that ends with the last one received. The range begins with the next number
  -- to report, or later when it has `max` numbers, and never has more. A block says that no packet has
  -- come; or that one has, its mark, and its age, which is at most 8190, or 8191 for a packet that came
  -- after the time of the report; by what the log holds. The packets up to the first one of the range
  -- that is missing are then taken out of the log, and no other one; the next report begins with the
  -- missing one.
  pub metrics_after-Reports :
      (l : StreamLog T) (max : ℤ)
      → is_empty l.log ≡ false
      → pos 0 ≤ℤ max
      → l.next_sequence_number_to_report ≤ℤ l.last_sequence_number_received +ℤ pos 1
      → Reports l max (metrics_after c l reference max)
  metrics_after-Reports l max e m w =
      let last = l.last_sequence_number_received in
      let next = l.next_sequence_number_to_report in
      let begin = (cut l max).next_sequence_number_to_report in
      let n = num_reports l max in
      let h : pos 0 ≤ℤ n =
        ground
          (arith, +ℤ_parts (last -ℤ next) (pos 1), -ℤ_parts last next, +ℤ_parts last (pos 1)) in
      let (q, log, t) = metrics_after-CutReports l max e h in
      let d = cut-Chosen l max in
      let same : pos (pos_part n) ≡ n = pos-pos_part n h in
      record {
        begin = begin;
        count = pos_part n;
        block = q.block;
        after = q.after;
        is = q.is;
        media = q.media ∙ ssrc-cut l max;
        begins = q.begins;
        to_last = ap (λ (k : ℤ). begin +ℤ k) same ∙ t;
        not_before = d.not_before;
        bounded = subst (λ (k : ℤ). k ≤ℤ max) (sym same) d.bounded;
        full = subst (λ (k : ℤ). (begin ≡ next) ⊎ (k ≡ max)) (sym same) d.full;
        blocks =
            q.blocks
            ∙ (ap (λ g. expected c reference g (pos_part n) begin) log
                ∙ expected-told_all c reference l.log (pos_part n) begin);
        delivered =
            let p =
              ap (λ g. leading c reference g (pos_part n) begin) log
              ∙ leading-in_a_row c reference l.log (pos_part n) begin in
            Delivered-log c reference begin _ (cut l max) l q.after log (last-cut l max)
              (subst (λ (k : ℕ). Delivered c reference begin k (cut l max) q.after) p q.delivered);
      }
