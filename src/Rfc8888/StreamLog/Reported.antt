-- ===== src/Rfc8888/StreamLog/Reported.antt =====
-- What a report says, and what it takes out of the log.
use interceptor.Common.{
  ℕ, zero, suc, ◌≡◌, refl, sym, ap, ap₂, subst, ◌∙◌, inl, inr, Bool, true, false, ◌&&◌, none, List,
  [], ◌∷◌, if◌then◌else◌, arith, Bool-cases, if_elim,
}
use interceptor.Common.Int.{
  ℤ, pos, ◌+ℤ◌, ◌≤ℤ◌, ◌<ℤ◌, ltb_ℤ, leb_ℤ, eqb_ℤ, eqb_ℤ_iff, +ℤ_parts, eq_parts, eq_of_parts,
}
use interceptor.Rfc8888.StreamLog.{
  Clock, PacketReport, StreamLog, MetricBlock, lookup, delete, metric, is_some, Loop, deliver,
  note_gap, round, run,
}

module _ {T : Type 0} (c : Clock T) (reference : T) where
  -- a block for each of `k` numbers from `i` on, by what the log holds
  abbrev pub expected : List (ℤ × PacketReport T) → ℕ → ℤ → List MetricBlock
  expected log zero i = []
  expected log (suc k) i = metric c reference (lookup log i) ∷ expected log k (i +ℤ pos 1)

  -- how many of them have come without a gap
  unfoldable pub leading : List (ℤ × PacketReport T) → ℕ → ℤ → ℕ
  leading log zero i = 0
  leading log (suc k) i =
      let rest = leading log k (i +ℤ pos 1) in if is_some (lookup log i) then suc rest else 0

  lookup-delete :
      (log : List (ℤ × PacketReport T)) (i n : ℤ)
      → lookup (delete log i) n ≡ (if eqb_ℤ i n then none else lookup log n)
  lookup-delete [] i n = ground arith
  lookup-delete (x ∷ log) i n =
      if_elim (λ xs. lookup xs n ≡ (if eqb_ℤ i n then none else lookup (x ∷ log) n)) (eqb_ℤ x.0 i)
        (delete log i) (x ∷ delete log i) (λ e. lookup-delete log i n ∙ ground arith)
        (λ e. ground (arith, lookup-delete log i n))

  abbrev deliverable : Loop T → ℤ → Bool
  deliverable s i =
      is_some (lookup s.stream.log i) && eqb_ℤ i s.stream.next_sequence_number_to_report

  abbrev delivered : Loop T → ℤ → Loop T
  delivered s i = record s {
    stream = record s.stream {
      log = delete s.stream.log i;
      next_sequence_number_to_report = i +ℤ pos 1;
    };
    last_received = i;
  }

  later :
      (s : Loop T) (i : ℤ) → s.stream.next_sequence_number_to_report <ℤ i → deliverable s i ≡ false
  later s i h = ground arith

  delivered_round :
      (i : ℤ) (s : Loop T)
      → deliverable s i ≡ true
      → s.gap_detected ≡ false
      → round s i ≡ delivered s i
  unfolding round
  delivered_round i s h g =
      let past : ltb_ℤ (i +ℤ pos 1) i ≡ false = ground (arith, +ℤ_parts i (pos 1)) in
      ap (λ b. if b then s else note_gap (deliver s i) i) g
      ∙ (ap (λ b. note_gap (if b then delivered s i else s) i) h
          ∙ ap (λ b. record (delivered s i) { gap_detected = if b then true else s.gap_detected })
              past)

  idle_round : (i : ℤ) (s : Loop T) → deliverable s i ≡ false → (round s i).stream ≡ s.stream
  unfolding round
  idle_round i s h =
      if_elim (λ (r : Loop T). r.stream ≡ s.stream) s.gap_detected s (note_gap (deliver s i) i)
        (λ e. refl) (λ e. ap (λ b. (if b then delivered s i else s).stream) h)

  -- After a gap nothing is delivered any more.
  run-gap :
      (k : ℕ) (i : ℤ) (s : Loop T)
      → s.stream.next_sequence_number_to_report <ℤ i
      → ((run c reference k i s).0 ≡ expected s.stream.log k i)
        × ((run c reference k i s).1 ≡ s.stream)
  unfolding run
  run-gap zero i s h = (refl, refl)
  run-gap (suc k) i s h =
      let q = idle_round i s (later s i h) in
      let n = ap (λ (l : StreamLog T). l.next_sequence_number_to_report) q in
      let r =
        run-gap k (i +ℤ pos 1) (round s i) (omega (arith, h, eq_parts n, +ℤ_parts i (pos 1))) in
      (
        ap (λ bs. metric c reference (lookup s.stream.log i) ∷ bs)
            (r.0 ∙ ap (λ (l : StreamLog T). expected l.log k (i +ℤ pos 1)) q),
        r.1 ∙ q,
      )

  -- A number that is taken out does not change what is said of the later ones.
  expected-delete :
      (log : List (ℤ × PacketReport T)) (k : ℕ) (i j : ℤ)
      → i <ℤ j
      → (expected (delete log i) k j ≡ expected log k j)
        × (leading (delete log i) k j ≡ leading log k j)
  unfolding leading
  expected-delete log zero i j h = (refl, refl)
  expected-delete log (suc k) i j h =
      let z : eqb_ℤ i j ≡ false = ground arith in
      let e : lookup (delete log i) j ≡ lookup log j = rw z at (lookup-delete log i j) in
      let r = expected-delete log k i (j +ℤ pos 1) (omega (arith, h, +ℤ_parts j (pos 1))) in
      (
        ap₂ (λ o bs. metric c reference o ∷ bs) e r.0,
        ap₂ (λ o n. if is_some o then suc n else 0) e r.1,
      )

  -- The stream log after a report over the numbers from `i` on, of which the first `p` were delivered.
  pub record Delivered (i : ℤ) (p : ℕ) (l l' : StreamLog T) : Type 0 where
    pub next : l'.next_sequence_number_to_report ≡ i +ℤ pos p
    pub kept :
        (n : ℤ)
        → lookup l'.log n ≡ (if leb_ℤ i n && ltb_ℤ n (i +ℤ pos p) then none else lookup l.log n)
    pub last : l'.last_sequence_number_received ≡ l.last_sequence_number_received

  plus_zero : (i : ℤ) → i +ℤ pos 0 ≡ i
  plus_zero i = eq_of_parts _ _ (omega (arith, +ℤ_parts i (pos 0)))

  none_between : (i n : ℤ) → (leb_ℤ i n && ltb_ℤ n (i +ℤ pos 0)) ≡ false
  none_between i n = ground (arith, +ℤ_parts i (pos 0))

  nothing-Delivered :
      (i : ℤ) (l : StreamLog T) → l.next_sequence_number_to_report ≡ i → Delivered i 0 l l
  nothing-Delivered i l e = record {
    next = e ∙ sym (plus_zero i);
    kept = λ n. ap (λ b. if b then none else lookup l.log n) (sym (none_between i n));
    last = refl;
  }

  more-Delivered :
      (i : ℤ) (p : ℕ) (s : Loop T) (l' : StreamLog T)
      → Delivered (i +ℤ pos 1) p (delivered s i).stream l'
      → Delivered i (suc p) s.stream l'
  more-Delivered i p s l' d =
      let a = +ℤ_parts i (pos 1) in
      let b = +ℤ_parts (i +ℤ pos 1) (pos p) in
      let f = +ℤ_parts i (pos (suc p)) in
      let step : i +ℤ pos 1 +ℤ pos p ≡ i +ℤ pos (suc p) =
        eq_of_parts _ _ (omega (arith, a, b, f)) in
      record {
        next = d.next ∙ step;
        kept = λ n.
            d.kept n
            ∙ ground
                (arith, lookup-delete s.stream.log i n, eqb_ℤ_iff i n, eq_of_parts i n, a, b, f);
        last = d.last;
      }

  -- the loop, as long as there is no gap
  pub run-Delivered :
      (k : ℕ) (i : ℤ) (s : Loop T)
      → s.stream.next_sequence_number_to_report ≡ i
      → s.gap_detected ≡ false
      → i ≤ℤ s.last_received +ℤ pos 1
      → ((run c reference k i s).0 ≡ expected s.stream.log k i)
        × Delivered i (leading s.stream.log k i) s.stream (run c reference k i s).1
  unfolding run leading
  run-Delivered zero i s e g l = (refl, nothing-Delivered i s.stream e)
  run-Delivered (suc k) i s e g l = elim (Bool-cases (is_some (lookup s.stream.log i))) [
    | inr o ↦
        let q = idle_round i s (ground arith) in
        let n = ap (λ (l : StreamLog T). l.next_sequence_number_to_report) q in
        let r =
          run-gap k (i +ℤ pos 1) (round s i)
            (omega (arith, eq_parts n, eq_parts e, +ℤ_parts i (pos 1))) in
        let st = r.1 ∙ q in
        (
          ap (λ bs. metric c reference (lookup s.stream.log i) ∷ bs)
              (r.0 ∙ ap (λ (l : StreamLog T). expected l.log k (i +ℤ pos 1)) q),
          subst (λ (t : StreamLog T). Delivered i (leading s.stream.log (suc k) i) s.stream t)
              (sym st)
              (subst (λ (p : ℕ). Delivered i p s.stream s.stream)
                (sym (ap (λ b. if b then suc (leading s.stream.log k (i +ℤ pos 1)) else 0) o))
                (nothing-Delivered i s.stream e)),
        )
    | inl o ↦
        let d : deliverable s i ≡ true =
          ground (arith, eqb_ℤ_iff i s.stream.next_sequence_number_to_report, e) in
        let q = delivered_round i s d g in
        let r = run-Delivered k (i +ℤ pos 1) (delivered s i) refl g (omega arith) in
        let x = expected-delete s.stream.log k i (i +ℤ pos 1) (omega (arith, +ℤ_parts i (pos 1))) in
        (
          ap (λ bs. metric c reference (lookup s.stream.log i) ∷ bs)
              (ap (λ t. (run c reference k (i +ℤ pos 1) t).0) q ∙ (r.0 ∙ x.0)),
          subst (λ (p : ℕ). Delivered i p s.stream (run c reference k (i +ℤ pos 1) (round s i)).1)
              (sym (ap (λ b. if b then suc (leading s.stream.log k (i +ℤ pos 1)) else 0) o))
              (subst
                (λ (t : Loop T).
                  Delivered i (suc (leading s.stream.log k (i +ℤ pos 1))) s.stream
                    (run c reference k (i +ℤ pos 1) t).1)
                (sym q)
                (more-Delivered i _ s _ (
                  subst
                    (λ (p : ℕ).
                      Delivered (i +ℤ pos 1) p (delivered s i).stream
                        (run c reference k (i +ℤ pos 1) (delivered s i)).1)
                    x.1 r.1))),
        )
  ]
