-- ===== src/Twcc/Recorder/Report.antt =====
-- All the feedback packets of one call: together they tell of every received packet, once and in order.
use interceptor.Common.{
  ℕ, ◌+◌, ◌*◌, ◌/◌, ◌≤◌, ◌<◌, ◌≡◌, refl, sym, ap, ap₂, subst, ◌∙◌, inl, inr, Option, none, some,
  List, [], ◌∷◌, ◌++◌, map, arith, Bool-cases, length, All,
}
use interceptor.Common.Int.{
  ℤ, pos, ◌+ℤ◌, ◌-ℤ◌, ◌≤ℤ◌, ◌<ℤ◌, ltb_ℤ, emod, +ℤ_parts, -ℤ_parts, eq_parts, one_part,
}
use interceptor.Twcc.ArrivalTimeMap.{PacketArrivalTimeMap, clamp, span}
use interceptor.Twcc.Chunk.Wire.{Fits}
use interceptor.Twcc.Feedback.{TransportLayerCc, get_rtcp}
use interceptor.Twcc.Feedback.Holds.{NearAll}
use interceptor.Twcc.Feedback.RoundTrip.{arrivals, get_rtcp-arrivals}
use interceptor.Twcc.Recorder.{Recorder, Built, maybe_build_feedback_packet, build}
use interceptor.Twcc.Recorder.Received.{received, received_before}
use interceptor.Twcc.Recorder.Packet.{wire}
use interceptor.Twcc.Recorder.First.{distance}
use interceptor.Twcc.Recorder.Begin.{Begins, Builds, build-Builds}

NearAll-append :
    (h : ℕ) (xs ys zs ws : List (ℕ × ℤ))
    → NearAll h xs ys
    → NearAll h zs ws
    → NearAll h (xs ++ zs) (ys ++ ws)
NearAll-append h [] [] zs ws a b = b
NearAll-append h [] (y ∷ ys) zs ws a b = absurd a
NearAll-append h (x ∷ xs) [] zs ws a b = absurd a
NearAll-append h (x ∷ xs) (y ∷ ys) zs ws a b = (a.0, a.1, NearAll-append h xs ys zs ws a.2 b)

pub All-suffix : (P : ℤ × ℤ → Type 0) (xs ys : List (ℤ × ℤ)) → All P (xs ++ ys) → All P ys
All-suffix P [] ys a = a
All-suffix P (x ∷ xs) ys a = All-suffix P xs ys a.1

map-append : (xs ys : List (ℤ × ℤ)) → map wire (xs ++ ys) ≡ map wire xs ++ map wire ys
map-append [] ys = refl
map-append (x ∷ xs) ys = ap (λ (zs : List (ℕ × ℤ)). wire x ∷ zs) (map-append xs ys)

-- `n` numbers from `start` on, of which those from `at` on can have come
pub record Clamped (m : PacketArrivalTimeMap) (n : ℕ) (start : ℤ) : Type 0 where
  pub at : ℤ
  pub left : ℕ
  pub is : clamp m start ≡ at
  pub later : start ≤ℤ at
  pub inside : m.begin_sequence_number ≤ℤ at
  pub rest : at +ℤ pos left ≡ m.end_sequence_number
  pub same : received m n start ≡ received m left at
  pub fewer : left ≤ n

pub clamp-Clamped :
    (m : PacketArrivalTimeMap) (n : ℕ) (start : ℤ)
    → m.begin_sequence_number ≤ℤ m.end_sequence_number
    → start +ℤ pos n ≡ m.end_sequence_number
    → Clamped m n start
clamp-Clamped m n start o e = elim (Bool-cases (ltb_ℤ start m.begin_sequence_number)) [
  | inl b ↦
      let early : start <ℤ m.begin_sequence_number = ground arith in
      let (d, q) = distance start m.begin_sequence_number (omega (arith, early)) in
      let (k, w) = distance m.begin_sequence_number m.end_sequence_number o in
      let l : d + k ≡ n = omega (
        arith,
        eq_parts q,
        eq_parts w,
        eq_parts e,
        +ℤ_parts start (pos d),
        +ℤ_parts m.begin_sequence_number (pos k),
        +ℤ_parts start (pos n),
      ) in
      record {
        at = m.begin_sequence_number;
        left = k;
        is = rw b refl;
        later = omega (arith, early);
        inside = omega arith;
        rest = w;
        same = received_before m d k n start l q;
        fewer = omega (arith, l);
      }
  | inr b ↦ record {
    at = start;
    left = n;
    is = ground (arith, eq_parts e, +ℤ_parts start (pos n));
    later = omega arith;
    inside = ground arith;
    rest = e;
    same = refl;
    fewer = omega arith;
  }
]

maybe_build_at :
    (scale : ℕ) (r : Recorder) (begin end from to : ℤ) (k : ℕ)
    → clamp r.arrival_time_map begin ≡ from
    → clamp r.arrival_time_map end ≡ to
    → span from to ≡ k
    → maybe_build_feedback_packet scale r begin end
      ≡ build scale r begin to k from none begin r.fb_pkt_cnt
unfolding maybe_build_feedback_packet
maybe_build_at scale r begin end from to k p q s =
    ap₂ (λ (f t : ℤ). build scale r begin t (span f t) f none begin r.fb_pkt_cnt) p q
    ∙ ap (λ (n : ℕ). build scale r begin to n from none begin r.fb_pkt_cnt) s

pub span_left : (from to : ℤ) (k : ℕ) → from +ℤ pos k ≡ to → span from to ≡ k
unfolding span
span_left from to k e =
    omega (arith, eq_parts e, +ℤ_parts from (pos k), -ℤ_parts to from, one_part (to -ℤ from))

-- The range has at most 32768 numbers.
abbrev pub Ranged : PacketArrivalTimeMap → Type 0
Ranged m =
    (m.begin_sequence_number ≤ℤ m.end_sequence_number)
    × (m.end_sequence_number ≤ℤ m.begin_sequence_number +ℤ pos 32768)

pub maybe_build-Builds :
    (scale : ℕ) (r : Recorder) (n : ℕ) (start : ℤ)
    → 2 ≤ scale
    → Ranged r.arrival_time_map
    → (c : Clamped r.arrival_time_map n start)
    → Builds
        (scale / 2)
        r.arrival_time_map
        c.left
        c.at
        (maybe_build_feedback_packet scale r start r.arrival_time_map.end_sequence_number)
maybe_build-Builds scale r n start fine o c =
    let e = r.arrival_time_map.end_sequence_number in
    let here = +ℤ_parts c.at (pos c.left) in
    let last : clamp r.arrival_time_map e ≡ e = ground (arith, o) in
    let small : c.left < 65536 = omega (
      arith,
      here,
      eq_parts c.rest,
      c.inside,
      o,
      +ℤ_parts r.arrival_time_map.begin_sequence_number (pos 32768),
    ) in
    subst (Builds (scale / 2) r.arrival_time_map c.left c.at)
      (sym
        (maybe_build_at scale r start e c.at e c.left c.is last (span_left c.at e c.left c.rest)))
      (build-Builds scale r start fine o.1 c.left c.left c.at (omega arith) small c.inside c.later
        c.rest)

abbrev pub somes : List TransportLayerCc → List (Option TransportLayerCc)
somes [] = []
somes (p ∷ ps) = some p ∷ somes ps

abbrev pub all_arrivals : List TransportLayerCc → List (ℕ × ℤ)
all_arrivals [] = []
all_arrivals (p ∷ ps) = arrivals p ++ all_arrivals ps

-- The packets `ps`, all of which can be written, tell of the packets `xs`.
pub record Tells (h : ℕ) (xs : List (ℤ × ℤ)) (ps : List (Option TransportLayerCc)) : Type 0 where
  pub packets : List TransportLayerCc
  pub are : ps ≡ somes packets
  pub near : NearAll h (map wire xs) (all_arrivals packets)
  pub fits : All (λ (p : TransportLayerCc). All Fits p.packet_chunks) packets

pub Tells-none : (h : ℕ) (xs : List (ℤ × ℤ)) → xs ≡ [] → Tells h xs []
Tells-none h xs e = record {
  packets = [];
  are = refl;
  near = subst (λ (ys : List (ℤ × ℤ)). NearAll h (map wire ys) []) (sym e) tt;
  fits = tt;
}

pub Tells-more :
    (h : ℕ) (m : PacketArrivalTimeMap) (n : ℕ) (at : ℤ) (b : Built) (g : Begins h m n at b)
    (ps : List (Option TransportLayerCc))
    → All (λ (x : ℤ × ℤ). x.1 <ℤ pos (4294967296 * 64000)) (received m n at)
    → Tells h (received m g.continues.left b.start) ps
    → Tells h (received m n at) (get_rtcp g.continues.packet ∷ ps)
Tells-more h m n at b g ps late t =
    let c = g.continues in
    let k = length c.reaches.holds.statuses in
    let short : k < 65536 = omega (
      arith,
      eq_parts c.reaches.reach,
      eq_parts c.rest,
      +ℤ_parts g.base (pos k),
      +ℤ_parts b.start (pos c.left),
      +ℤ_parts g.base (pos 65536),
      g.near,
    ) in
    let p =
      get_rtcp-arrivals h (emod g.base 65536) g.time (g.bounded _ late) (map wire c.taken) c.packet
        c.reaches.holds short in
    record {
      packets = p.0 ∷ t.packets;
      are =
          ap₂ (λ (x : Option TransportLayerCc) (xs : List (Option TransportLayerCc)). x ∷ xs) p.1
            t.are;
      near =
          subst
            (λ (xs : List (ℤ × ℤ)).
              NearAll h (map wire xs) (arrivals p.0 ++ all_arrivals t.packets))
            (sym c.split)
            (subst (λ (xs : List (ℕ × ℤ)). NearAll h xs (arrivals p.0 ++ all_arrivals t.packets))
              (sym (map-append c.taken (received m c.left b.start)))
              (NearAll-append h (map wire c.taken) _ _ _ p.2 t.near));
      fits = (p.3, t.fits);
    }
