-- ===== src/FlexFec/Coverage/Covered.antt =====
-- The interleaving: of `n` repair packets, the one that covers a media packet is the one of the
-- remainder of its index.
use interceptor.Common.{
  ℕ, zero, suc, ◌+◌, ◌%◌, ◌≤◌, ◌<◌, ◌≡◌, refl, ap, ap₂, ◌∙◌, Bool, true, false, ◌&&◌, some, none,
  List, [], ◌∷◌, ltb, leb, ◌==◌, if◌then◌else◌, arith, if_elim, length,
}
use interceptor.FlexFec.BitArray.{BitArray, get_bit_at}
use interceptor.FlexFec.Coverage.{
  ProtectionCoverage, mask_at, fits, update_coverage, covered_from, get_covered_by,
}
use interceptor.FlexFec.Coverage.Grid.{get_bit_at-cover_all}

module _ {P : Type 0} where
  -- A repair packet of a coverage covers the media packets of its remainder.
  abbrev pub IsCoverage : ProtectionCoverage P → Type 0
  IsCoverage p =
      (i x : ℕ)
      → i < p.num_fec_packets
      → i < 110
      → get_bit_at (mask_at p.packet_masks i) x
        ≡ (ltb x p.num_media_packets && x % p.num_fec_packets == i)

  update_coverage_counts :
      (p : ProtectionCoverage P) (media : List P) (n : ℕ)
      → fits media ≡ true
      → ((update_coverage p media n).num_fec_packets ≡ n)
        × ((update_coverage p media n).num_media_packets ≡ length media)
  unfolding update_coverage
  update_coverage_counts p media n f =
      if_elim
        (λ (q : ProtectionCoverage P).
          (q.num_fec_packets ≡ n) × (q.num_media_packets ≡ length media))
        (fits media) _ p
        (λ g.
          if_elim
            (λ (q : ProtectionCoverage P).
              (q.num_fec_packets ≡ n) × (q.num_media_packets ≡ length media))
            (n == p.num_fec_packets && length media == p.num_media_packets) _ _
            (λ e. (ground arith, ground arith)) (λ e. (refl, refl)))
        (λ g. absurd (ground arith))

  update_coverage-IsCoverage :
      (p : ProtectionCoverage P) (media : List P) (n : ℕ)
      → n ≤ 4294967168
      → IsCoverage p
      → IsCoverage (update_coverage p media n)
  unfolding update_coverage
  update_coverage-IsCoverage p media n u c =
      if_elim IsCoverage (fits media) _ p
        (λ f.
          if_elim IsCoverage (n == p.num_fec_packets && length media == p.num_media_packets) _ _
            (λ e. c) (λ e i x h l. get_bit_at-cover_all n i x (length media) u h l (ground arith)))
        (λ f. c)

-- the indices from `j` on, of `k` numbers, whose remainder by `n` is `i`
pub interleaved : ℕ → ℕ → ℕ → ℕ → List ℕ
interleaved n i zero j = []
interleaved n i (suc k) j =
    let rest = interleaved n i k (j + 1) in if j % n == i then j ∷ rest else rest

covered_from-interleaved :
    (b : BitArray) (n i m k j : ℕ)
    → ((x : ℕ) → get_bit_at b x ≡ (ltb x m && x % n == i))
    → j + k ≤ m
    → covered_from b k j ≡ interleaved n i k j
unfolding covered_from interleaved
covered_from-interleaved b n i m zero j f h = refl
covered_from-interleaved b n i m (suc k) j f h =
    let t : get_bit_at b j ≡ (j % n == i) = ground (arith, f j) in
    ap₂ (λ (c : Bool) (xs : List ℕ). if c then j ∷ xs else xs) t
      (covered_from-interleaved b n i m k (j + 1) f (omega arith))

module _ {P : Type 0} where
  get_covered_by-interleaved :
      (q : ProtectionCoverage P) (n m i : ℕ)
      → IsCoverage q
      → q.num_fec_packets ≡ n
      → q.num_media_packets ≡ m
      → i < n
      → i < 110
      → get_covered_by q i ≡ some (interleaved n i m 0)
  unfolding get_covered_by
  get_covered_by-interleaved q n m i c e f h l =
      let b = mask_at q.packet_masks i in
      let z : (leb 110 i && ltb 0 q.num_media_packets) ≡ false = ground arith in
      ap (λ t. if t then none else some (covered_from b q.num_media_packets 0)) z
      ∙ ap some (
          ap (λ (k : ℕ). covered_from b k 0) f
          ∙ covered_from-interleaved b n i m m 0
              (λ x. c i x (omega (arith, h, e)) l ∙ ap₂ (λ (u v : ℕ). ltb x u && x % v == i) f e)
              (omega arith))

  -- A coverage whose repair packets cover the media packets of their remainders is one again after
  -- `UpdateCoverage` with 1 to 110 media packets, whether the masks are made anew or kept. The repair
  -- packet `i` of `n`, with `n` at most 2^32 - 128 and `i` below 110, then covers exactly the media
  -- packets whose index has the remainder `i` by `n`, in order.
  pub update_coverage-interleaved :
      (p : ProtectionCoverage P) (media : List P) (n i : ℕ)
      → n ≤ 4294967168
      → IsCoverage p
      → fits media ≡ true
      → i < n
      → i < 110
      → IsCoverage (update_coverage p media n)
        × (get_covered_by (update_coverage p media n) i ≡ some (interleaved n i (length media) 0))
  update_coverage-interleaved p media n i u c f h l =
      let e = update_coverage_counts p media n f in
      (
        update_coverage-IsCoverage p media n u c,
        get_covered_by-interleaved (update_coverage p media n) n (length media) i
            (update_coverage-IsCoverage p media n u c) e.0 e.1 h l,
      )
