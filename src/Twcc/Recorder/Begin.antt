-- ===== src/Twcc/Recorder/Begin.antt =====
-- A packet from its first received packet on.
use interceptor.Twcc.Recorder.First.{add_received_accepts, base_near, distance}
use interceptor.Common.{
  ℕ, zero, suc, ◌+◌, ◌/◌, ◌≤◌, ◌<◌, ◌≡◌, refl, sym, ap, subst, ◌∙◌, ◌⊎◌, inl, inr, true, none, some,
  [], ◌∷◌, arith, All,
}
use interceptor.Common.Int.{
  ℤ, pos, negsuc, ◌+ℤ◌, ◌-ℤ◌, ◌≤ℤ◌, ◌<ℤ◌, ltb_ℤ, emod, mul_ℕ, +ℤ_parts, eq_parts,
}
use interceptor.Common.Window.{emod-lt}
use interceptor.Twcc.ArrivalTimeMap.{PacketArrivalTimeMap}
use interceptor.Twcc.Feedback
use interceptor.Twcc.Feedback.{Feedback, set_base, add_received, skip_to, receive, to_ticks}
use interceptor.Twcc.Feedback.RoundTrip.{set_base-Holds}
use interceptor.Twcc.Recorder.{Recorder, Built, build, next_count, max_ℤ}
use interceptor.Twcc.Recorder.Received.{
  received, received_nil, nothing, found, find_next-Search, plus_plus, plus_zero,
}
use interceptor.Twcc.Recorder.Packet.{
  wire, Reaches, add_received-Reaches, Continues, goes_on, build-Continues,
}

-- `a` is less than 64 ms.

-- The packet that `maybeBuildFeedbackPacket` builds from `at` on, up to which there are `n` numbers.
pub record Begins (h : ℕ) (m : PacketArrivalTimeMap) (n : ℕ) (at : ℤ) (r : Built) : Type 0 where
  pub base : ℤ
  pub time : ℕ
  pub continues : Continues h m base (mul_ℕ (pos (time / 64000)) 64000) [] n at r
  pub near : m.end_sequence_number <ℤ base +ℤ pos 65536
  pub bounded : (b : ℕ) → All (λ (x : ℤ × ℤ). x.1 <ℤ pos b) (received m n at) → time < b
  pub strict : continues.left < n

abbrev pub Builds : ℕ → PacketArrivalTimeMap → ℕ → ℤ → Built → Type 0
Builds h m n at r = ((r.feedback ≡ none) × (received m n at ≡ [])) ⊎ Begins h m n at r

first_of :
    (m : PacketArrivalTimeMap) (n j : ℕ) (at sn : ℤ) (τ b : ℕ)
    → received m n at ≡ (sn, pos τ) ∷ received m j (sn +ℤ pos 1)
    → All (λ (x : ℤ × ℤ). x.1 <ℤ pos b) (received m n at)
    → τ < b
first_of m n j at sn τ b e a =
    let w = subst (All (λ (x : ℤ × ℤ). x.1 <ℤ pos b)) e a in omega (arith, w.0)

module _ (scale : ℕ) (r : Recorder) (begin : ℤ) (fine : 2 ≤ scale)
    (short : r.arrival_time_map.end_sequence_number
      ≤ℤ r.arrival_time_map.begin_sequence_number +ℤ pos 32768) where
  began :
      (k n d j : ℕ) (at : ℤ) (τ : ℕ) (e : ℕ) (g : Feedback)
      → n ≤ suc k
      → n < 65536
      → r.arrival_time_map.begin_sequence_number ≤ℤ at
      → begin ≤ℤ at
      → at +ℤ pos n ≡ r.arrival_time_map.end_sequence_number
      → d + 1 + j ≡ n
      → received r.arrival_time_map n at
        ≡ (at +ℤ pos d, pos τ) ∷ received r.arrival_time_map j (at +ℤ pos d +ℤ pos 1)
      → max_ℤ begin (at +ℤ pos d -ℤ pos 32766) +ℤ pos e ≡ at +ℤ pos d
      → add_received scale
          (set_base
            (Feedback.new r.sender_ssrc r.media_ssrc r.fb_pkt_cnt)
            (emod (max_ℤ begin (at +ℤ pos d -ℤ pos 32766)) 65536)
            (pos τ))
          (emod (at +ℤ pos d) 65536)
          (pos τ)
        ≡ some g
      → Begins (scale / 2) r.arrival_time_map n at (
          build scale r begin r.arrival_time_map.end_sequence_number k
            (at +ℤ pos d +ℤ pos 1)
            (some g)
            (at +ℤ pos d +ℤ pos 1)
            (next_count none r.fb_pkt_cnt))
  unfolding set_base Feedback.new
  began k n d j at τ e g l s h w m u z q a =
      let sn = at +ℤ pos d in
      let b = max_ℤ begin (sn -ℤ pos 32766) in
      let here = +ℤ_parts at (pos d) in
      let past = +ℤ_parts sn (pos 1) in
      let near =
        base_near begin sn r.arrival_time_map.end_sequence_number (omega (arith, w, here)) (
          omega (
            arith,
            short,
            h,
            here,
            +ℤ_parts sn (pos 32768),
            +ℤ_parts r.arrival_time_map.begin_sequence_number (pos 32768),
          )) in
      let close : e < 65536 =
        omega (arith, eq_parts q, +ℤ_parts b (pos e), near, +ℤ_parts b (pos 32767)) in
      let base =
        set_base-Holds (scale / 2) r.sender_ssrc r.media_ssrc r.fb_pkt_cnt (emod b 65536) (pos τ)
          (emod-lt b 65536 (omega arith)) in
      let p =
        add_received-Reaches scale b b _ [] _ g e (pos τ) (omega (arith, fine)) close
          (record { holds = base.0; reach = ap (λ (i : ℕ). b +ℤ pos i) base.1 ∙ plus_zero b })
          (subst
            (λ (x : ℤ).
              add_received scale
                (set_base (Feedback.new r.sender_ssrc r.media_ssrc r.fb_pkt_cnt) (emod b 65536)
                  (pos τ))
                (emod x 65536) (pos τ)
              ≡ some g)
            (sym q) a) in
      let p' =
        subst
          (λ (x : ℤ).
            Reaches (scale / 2) b (x +ℤ pos 1) (mul_ℕ (pos (τ / 64000)) 64000)
              (wire (x, pos τ) ∷ []) g)
          q p in
      let at_end : sn +ℤ pos 1 +ℤ pos j ≡ at +ℤ pos n =
        plus_plus sn 1 j
        ∙ (plus_plus at d (1 + j) ∙ ap (λ (x : ℕ). at +ℤ pos x) (omega (arith, u))) in
      let c =
        build-Continues scale r begin (omega (arith, fine)) k j (sn +ℤ pos 1) b _ _ g
          (next_count none r.fb_pkt_cnt) (omega (arith, u, l)) (omega (arith, u, s))
          (omega (arith, h, past, here)) (at_end ∙ m) p' in
      let o =
        goes_on (scale / 2) r.arrival_time_map b _ [] n j at sn (pos τ) _ z (omega (arith, u)) c in
      record {
        base = b;
        time = τ;
        continues = o.0;
        near = near.2;
        bounded = λ x y. first_of r.arrival_time_map n j at sn τ x z y;
        strict = omega (arith, o.1, c.fewer, u);
      }

  -- `maybeBuildFeedbackPacket` builds no packet only when there is nothing to tell.
  pub build-Builds :
      (k n : ℕ) (at : ℤ)
      → n ≤ k
      → n < 65536
      → r.arrival_time_map.begin_sequence_number ≤ℤ at
      → begin ≤ℤ at
      → at +ℤ pos n ≡ r.arrival_time_map.end_sequence_number
      → Builds
          (scale / 2)
          r.arrival_time_map
          n
          at
          (build scale r begin r.arrival_time_map.end_sequence_number k at none begin r.fb_pkt_cnt)
  unfolding build
  build-Builds zero n at l s h w m =
      inl (refl, received_nil r.arrival_time_map n at (omega (arith, l)))
  build-Builds (suc k) n at l s h w m = elim (find_next-Search r.arrival_time_map n at h m) [
    | nothing o z ↦ rw (o, build) (inl (refl, z))
    | found d j (negsuc x) o u q z ↦ absurd (omega arith)
    | found d j (pos τ) o u q z ↦
        let sn = at +ℤ pos d in
        let b = max_ℤ begin (sn -ℤ pos 32766) in
        let here = +ℤ_parts at (pos d) in
        let i : ltb_ℤ sn r.arrival_time_map.end_sequence_number ≡ true =
          ground (arith, here, +ℤ_parts at (pos n), eq_parts m, u) in
        let (g, a) =
          add_received_accepts scale r.sender_ssrc r.media_ssrc r.fb_pkt_cnt (emod b 65536)
            (emod sn 65536) τ fine in
        let near =
          base_near begin sn r.arrival_time_map.end_sequence_number (omega (arith, w, here)) (
            omega (
              arith,
              short,
              h,
              here,
              +ℤ_parts sn (pos 32768),
              +ℤ_parts r.arrival_time_map.begin_sequence_number (pos 32768),
            )) in
        let (e, q') = distance b sn near.0 in
        rw (o, i, a, build) (inr (began k n d j at τ e g l s h w m u z q' a))
  ]
