-- ===== src/Twcc/Recorder/Packet.antt =====
-- One feedback packet of the recorder: it holds the received packets from its start on, one after the
-- other, as far as it goes.
use mathlib.Core.List.{append_assoc, append-nil}
use interceptor.Common.{
  ℕ, zero, suc, ◌+◌, ◌/◌, ◌%◌, ◌≤◌, ◌<◌, ◌≡◌, refl, sym, ap, subst, ◌∙◌, inl, inr, true, some, List,
  [], ◌∷◌, ◌++◌, map, arith, Option-cases, length, sub16,
}
use interceptor.Common.Int.{
  ℤ, pos, negsuc, ◌+ℤ◌, ◌≤ℤ◌, ltb_ℤ, emod, +ℤ_parts, eq_parts, eq_of_parts,
}
use interceptor.Common.Window.{emod-lt}
use interceptor.Twcc.ArrivalTimeMap.{PacketArrivalTimeMap}
use interceptor.Twcc.Feedback.{Feedback, add_received}
use interceptor.Twcc.Feedback.Decode.{snoc}
use interceptor.Twcc.Feedback.Holds.{Holds}
use interceptor.Twcc.Feedback.Received.{add_received-Holds}
use interceptor.Twcc.Recorder.{Recorder, Built, build}
use interceptor.Twcc.Recorder.Received.{received, nothing, found, find_next-Search, plus_plus}

-- what the packet says of a received packet: its 16-bit number, and its time
abbrev pub wire : ℤ × ℤ → ℕ × ℤ
wire x = (emod x.0 65536, x.1)

pub emod-plus : (a : ℤ) (k : ℕ) → emod (a +ℤ pos k) 65536 ≡ (emod a 65536 + k) % 65536
unfolding ◌+ℤ◌
emod-plus (pos a) k = ground arith
emod-plus (negsuc a) k = ground arith

-- A packet from `b` on that has come as far as `at`, with the arrivals `xs`.
pub record Reaches (h : ℕ) (b at start : ℤ) (xs : List (ℕ × ℤ)) (f : Feedback) : Type 0 where
  pub holds : Holds h (emod b 65536) start xs f
  pub reach : b +ℤ pos (length holds.statuses) ≡ at

-- A packet that is added `d` numbers further on.
pub add_received-Reaches :
    (scale : ℕ) (b at start : ℤ) (xs : List (ℕ × ℤ)) (f g : Feedback) (d : ℕ) (t : ℤ)
    → 0 < scale
    → d < 65536
    → Reaches (scale / 2) b at start xs f
    → add_received scale f (emod (at +ℤ pos d) 65536) t ≡ some g
    → Reaches (scale / 2) b (at +ℤ pos d +ℤ pos 1) start (snoc xs (wire (at +ℤ pos d, t))) g
add_received-Reaches scale b at start xs f g d t ticking small p e =
    let lt : (a : ℤ) → emod a 65536 < 65536 = λ a. emod-lt a 65536 (omega arith) in
    let q =
      add_received-Holds scale (emod b 65536) start (lt b) ticking xs f p.holds t
        (emod (at +ℤ pos d) 65536) g (lt (at +ℤ pos d)) e in
    let n = p.holds.next in
    let k = length p.holds.statuses in
    let here : f.next_sequence_number ≡ emod at 65536 =
      n ∙ (sym (emod-plus b k) ∙ ap (λ (z : ℤ). emod z 65536) p.reach) in
    let gap : sub16 (emod (at +ℤ pos d) 65536) f.next_sequence_number ≡ d =
      omega (arith, emod-plus at d, here, small, lt at) in
    let l : length q.0.statuses ≡ k + d + 1 = omega (arith, q.1, gap) in
    record {
      holds = q.0;
      reach = eq_of_parts _ _ (
          omega (
            arith,
            l,
            eq_parts p.reach,
            +ℤ_parts b (pos (length q.0.statuses)),
            +ℤ_parts b (pos k),
            +ℤ_parts (at +ℤ pos d) (pos 1),
            +ℤ_parts at (pos d),
          ));
    }

-- What is left when the packet goes on from `at`: the received packets up to its end are in it.
pub record Continues (h : ℕ) (m : PacketArrivalTimeMap) (b start : ℤ) (xs : List (ℕ × ℤ)) (n : ℕ)
    (at : ℤ) (r : Built) : Type 0 where
  pub packet : Feedback
  pub is : r.feedback ≡ some packet
  pub taken : List (ℤ × ℤ)
  pub left : ℕ
  pub reaches : Reaches h b r.start start (xs ++ map wire taken) packet
  pub split : received m n at ≡ taken ++ received m left r.start
  pub rest : r.start +ℤ pos left ≡ m.end_sequence_number
  pub fewer : left ≤ n

stops :
    (h : ℕ) (m : PacketArrivalTimeMap) (b start : ℤ) (xs : List (ℕ × ℤ)) (n : ℕ) (at : ℤ)
    (f : Feedback) (c : ℕ)
    → Reaches h b at start xs f
    → at +ℤ pos n ≡ m.end_sequence_number
    → Continues h m b start xs n at (record { feedback = some f; start = at; fb_pkt_cnt = c })
stops h m b start xs n at f c p e = record {
  packet = f;
  is = refl;
  taken = [];
  left = n;
  reaches = subst (λ (ys : List (ℕ × ℤ)). Reaches h b at start ys f) (sym (append-nil xs)) p;
  split = refl;
  rest = e;
  fewer = omega arith;
}

pub goes_on :
    (h : ℕ) (m : PacketArrivalTimeMap) (b start : ℤ) (xs : List (ℕ × ℤ)) (n j : ℕ) (at at' t : ℤ)
    (r : Built)
    → received m n at ≡ (at', t) ∷ received m j (at' +ℤ pos 1)
    → j ≤ n
    → (c : Continues h m b start (snoc xs (wire (at', t))) j (at' +ℤ pos 1) r)
    → (q : Continues h m b start xs n at r) × (q.left ≡ c.left)
goes_on h m b start xs n j at at' t r e l c = (
  record {
    packet = c.packet;
    is = c.is;
    taken = (at', t) ∷ c.taken;
    left = c.left;
    reaches =
        subst (λ (ys : List (ℕ × ℤ)). Reaches h b r.start start ys c.packet)
          (append_assoc xs (wire (at', t) ∷ []) (map wire c.taken)) c.reaches;
    split = e ∙ ap (λ (zs : List (ℤ × ℤ)). (at', t) ∷ zs) c.split;
    rest = c.rest;
    fewer = omega (arith, l, c.fewer);
  },
  refl,
)

module _ (scale : ℕ) (r : Recorder) (begin : ℤ) (ticking : 0 < scale) where
  pub build-Continues :
      (k n : ℕ) (at b start : ℤ) (xs : List (ℕ × ℤ)) (f : Feedback) (c : ℕ)
      → n ≤ k
      → n < 65536
      → r.arrival_time_map.begin_sequence_number ≤ℤ at
      → at +ℤ pos n ≡ r.arrival_time_map.end_sequence_number
      → Reaches (scale / 2) b at start xs f
      → Continues
          (scale / 2)
          r.arrival_time_map
          b
          start
          xs
          n
          at
          (build scale r begin r.arrival_time_map.end_sequence_number k at (some f) at c)
  unfolding build
  build-Continues zero n at b start xs f c l s h e p =
      stops (scale / 2) r.arrival_time_map b start xs n at f c p e
  build-Continues (suc k) n at b start xs f c l s h e p =
      elim (find_next-Search r.arrival_time_map n at h e) [
        | nothing o z ↦ rw (o, build) (stops (scale / 2) r.arrival_time_map b start xs n at f c p e)
        | found d j t o u q z ↦
            let at' = at +ℤ pos d in
            let i : ltb_ℤ at' r.arrival_time_map.end_sequence_number ≡ true =
              ground (arith, +ℤ_parts at (pos d), +ℤ_parts at (pos n), eq_parts e, u) in
            elim (Option-cases (add_received scale f (emod at' 65536) t)) [
              | inl a ↦
                  rw (o, i, a, build) (stops (scale / 2) r.arrival_time_map b start xs n at f c p e)
              | inr (g, a) ↦
                  let m : at' +ℤ pos 1 +ℤ pos j ≡ at +ℤ pos n =
                    plus_plus at' 1 j
                    ∙ (plus_plus at d (1 + j) ∙ ap (λ (x : ℕ). at +ℤ pos x) (omega (arith, u))) in
                  rw (o, i, a, build)
                    (goes_on (scale / 2) r.arrival_time_map b start xs n j at at' t _ z
                      (omega (arith, u))
                      (build-Continues k j (at' +ℤ pos 1) b start (snoc xs (wire (at', t))) g c
                        (omega (arith, u, l)) (omega (arith, u, s))
                        (omega (arith, h, +ℤ_parts at' (pos 1), +ℤ_parts at (pos d))) (m ∙ e)
                        (add_received-Reaches scale b at start xs f g d t ticking
                          (omega (arith, u, s)) p a))).0
            ]
      ]
