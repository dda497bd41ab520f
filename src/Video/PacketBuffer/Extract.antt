-- ===== src/Video/PacketBuffer/Extract.antt =====
-- The frames that `extractFrame` and `findFrames` hand out.
use interceptor.Common.{
  ℕ, zero, suc, ◌+◌, ◌≤◌, ◌<◌, ◌≡◌, refl, Bool, true, false, none, some, List, [], ◌∷◌, ◌⊎◌, ltb,
  arith, Bool-cases, Option-cases, inl, inr,
}
use interceptor.Common.Int.{ℤ, pos, pos_part, ◌+ℤ◌, ◌-ℤ◌, eq_of_parts, int_laws, eq_parts, one_part}
use interceptor.Video.PacketBuffer.{
  BufferedPacket, PacketBuffer, find, find_start, collect, extract_frame, is_first, is_last,
}

pub find-sequence_number :
    (b : PacketBuffer) (n : ℤ) (p : BufferedPacket) → find b n ≡ some p → p.sequence_number ≡ n
unfolding find
find-sequence_number b n p h = ground (arith, eq_of_parts p.sequence_number n)

-- Packets of successive numbers from `a` on, each marked as continuous.
abbrev pub Run : ℤ → List BufferedPacket → Type 0
Run a [] = Unit
Run a (p ∷ ps) = (p.sequence_number ≡ a) × (p.continuous ≡ true) × Run (a +ℤ pos 1) ps

abbrev pub NoneFirst : List BufferedPacket → Type 0
NoneFirst [] = Unit
NoneFirst (p ∷ ps) = (is_first p ≡ false) × NoneFirst ps

abbrev pub LastIsLast : List BufferedPacket → Type 0
LastIsLast [] = ⊥
LastIsLast (p ∷ []) = is_last p ≡ true
LastIsLast (p ∷ q ∷ ps) = LastIsLast (q ∷ ps)

-- A complete frame: packets of successive numbers, all continuous, of which the first and no other
-- begins a frame, and the last ends one.
abbrev pub IsFrame : List BufferedPacket → Type 0
IsFrame [] = ⊥
IsFrame (p ∷ ps) =
    Run p.sequence_number (p ∷ ps) × (is_first p ≡ true) × NoneFirst ps × LastIsLast (p ∷ ps)

abbrev first_at : PacketBuffer → ℤ → Bool
first_at b n = elim (find b n) [ none ↦ false | some p ↦ is_first p ]

abbrev pub last_at : PacketBuffer → ℤ → Bool
last_at b n = elim (find b n) [ none ↦ false | some p ↦ is_last p ]

le_of_ltb : {j n : ℕ} → ltb j n ≡ false → n ≤ j
le_of_ltb h = ground arith

find_start_step :
    (b : PacketBuffer) (k : ℕ) (s a : ℤ)
    → find_start b (suc k) s ≡ some a
    → ((first_at b s ≡ true) × (s ≡ a))
      ⊎ ((first_at b s ≡ false) × (find_start b k (s -ℤ pos 1) ≡ some a))
unfolding find_start
find_start_step b k s a h = ground arith

-- The number reached begins a frame, and no number after it up to the end does.
record Started (b : PacketBuffer) (s a : ℤ) : Type 0 where
  n : ℕ
  distance : s ≡ a +ℤ pos n
  begins : first_at b a ≡ true
  interior : (j : ℕ) → j < n → first_at b (a +ℤ pos 1 +ℤ pos j) ≡ false

find_start-Started :
    (b : PacketBuffer) (k : ℕ) (s a : ℤ) → find_start b k s ≡ some a → Started b s a
unfolding find_start
find_start-Started b zero s a h = absurd (ground arith)
find_start-Started b (suc k) s a h = elim (find_start_step b k s a h) [
  | inl (f, e) ↦ record {
    n = 0;
    distance = omega (int_laws, eq_parts e);
    begins = rw e at f;
    interior = λ j p. absurd (omega arith);
  }
  | inr (f, r) ↦ further f (find_start-Started b k (s -ℤ pos 1) a r)
]
  where
    further : first_at b s ≡ false → Started b (s -ℤ pos 1) a → Started b s a
    further f t = record {
      n = t.n + 1;
      distance = omega (int_laws, eq_parts t.distance);
      begins = t.begins;
      interior = λ j p. elim (Bool-cases (ltb j t.n)) [
        | inl e ↦ t.interior j (ground arith)
        | inr e ↦
            let q : s ≡ a +ℤ pos 1 +ℤ pos j = omega (int_laws, eq_parts t.distance, le_of_ltb e) in
            rw q at f
      ];
    }

pub collect_step :
    (b : PacketBuffer) (k : ℕ) (a : ℤ) (ps : List BufferedPacket)
    → collect b (suc k) a ≡ some ps
    → (p : BufferedPacket) × (qs : List BufferedPacket) × (ps ≡ p ∷ qs)
      × (find b a ≡ some p)
      × (p.continuous ≡ true)
      × (collect b k (a +ℤ pos 1) ≡ some qs)
unfolding collect
collect_step b k a ps h = elim (Option-cases (find b a)) [
  | inl e ↦ absurd (ground arith)
  | inr (p, e) ↦ elim (Option-cases (collect b k (a +ℤ pos 1))) [
    | inl f ↦ absurd (ground arith)
    | inr (qs, f) ↦ (p, qs, ground arith, e, ground arith, f)
  ]
]

collect_lem :
    (b : PacketBuffer) (n : ℕ) (a : ℤ) (ps : List BufferedPacket)
    → collect b n a ≡ some ps
    → ((j : ℕ) → j < n → first_at b (a +ℤ pos j) ≡ false)
    → Run a ps × NoneFirst ps
unfolding collect
collect_lem b zero a ps h f = let e : ps ≡ [] = ground arith in rw e (tt, tt)
collect_lem b (suc n) a ps h f =
    let (p, qs, e, at, cont, rest) = collect_step b n a ps h in
    let shift = λ (j : ℕ) (q : j < n).
      let g : a +ℤ pos (j + 1) ≡ a +ℤ pos 1 +ℤ pos j = omega int_laws in
      rw g at (f (j + 1) (omega arith)) in
    let ih = collect_lem b n (a +ℤ pos 1) qs rest shift in
    let z : a +ℤ pos 0 ≡ a = omega int_laws in
    let now : first_at b a ≡ false = rw z at (f 0 (omega arith)) in
    rw e ((find-sequence_number b a p at, cont, ih.0), (ground arith, ih.1))

-- The packets collected end with the one that the last number finds.
collect-LastIsLast :
    (b : PacketBuffer) (n : ℕ) (a : ℤ) (ps : List BufferedPacket)
    → collect b (suc n) a ≡ some ps
    → last_at b (a +ℤ pos n) ≡ true
    → LastIsLast ps
collect-LastIsLast b zero a ps h l =
    let (p, qs, e, at, cont, rest) = collect_step b 0 a ps h in
    let z : a +ℤ pos 0 ≡ a = omega int_laws in
    let nil : qs ≡ [] = unfold collect in ground arith in
    let now : last_at b a ≡ true = rw z at l in rw (e, nil) (ground arith)
collect-LastIsLast b (suc n) a ps h l =
    let (p, qs, e, at, cont, rest) = collect_step b (suc n) a ps h in
    let (q, rs, e', _, _, _) = collect_step b n (a +ℤ pos 1) qs rest in
    let g : a +ℤ pos (suc n) ≡ a +ℤ pos 1 +ℤ pos n = omega int_laws in
    let ih = collect-LastIsLast b n (a +ℤ pos 1) qs rest (rw g at l) in rw (e, e') (rw e' at ih)

-- `extractFrame` at a number that finds a packet ending a frame gives nothing but a complete frame.
pub extract_frame-IsFrame :
    (b : PacketBuffer) (s : ℤ) (ps : List BufferedPacket)
    → last_at b s ≡ true
    → extract_frame b s ≡ some ps
    → IsFrame ps
unfolding extract_frame
extract_frame-IsFrame b s ps l h = elim (Option-cases (find_start b (b.size + 1) s)) [
  | inl e ↦ absurd (ground arith)
  | inr (a, e) ↦
      let st = find_start-Started b (b.size + 1) s a e in
      let k : pos_part (s -ℤ a +ℤ pos 1) ≡ suc st.n =
        omega (int_laws, eq_parts st.distance, one_part (s -ℤ a +ℤ pos 1)) in
      let c : collect b (suc st.n) a ≡ some ps = ground arith in
      let (p, qs, cut, at, cont, rest) = collect_step b st.n a ps c in
      let (run, none_first) = collect_lem b st.n (a +ℤ pos 1) qs rest st.interior in
      let ends = collect-LastIsLast b st.n a ps c (rw st.distance at l) in
      let num = find-sequence_number b a p at in
      let begins = st.begins in
      let first : is_first p ≡ true = ground arith in
      rw cut ((refl, cont, rw num run), first, none_first, rw cut at ends)
]
