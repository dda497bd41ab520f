-- ===== src/Twcc/Recorder/Received.antt =====
-- The packets that the map of arrival times holds, in order, and how the search for the next one walks
-- over them.
use interceptor.Common.{
  ℕ, zero, suc, ◌+◌, ◌≡◌, refl, sym, ap, ap₂, ◌∙◌, inl, inr, Option, none, some, List, [], ◌∷◌,
  if◌then◌else◌, arith, Bool-cases,
}
use interceptor.Common.Int.{
  ℤ, pos, pos_part, ◌+ℤ◌, ◌-ℤ◌, ◌≤ℤ◌, leb_ℤ, +ℤ_parts, -ℤ_parts, eq_parts, eq_of_parts, one_part,
}
use interceptor.Twcc.ArrivalTimeMap.{
  PacketArrivalTimeMap, get, never, span, clamp, find_from, find_next_at_or_after,
}
use interceptor.Twcc.ArrivalTimeMap.Ring.{get_out}

-- what has come of the `k` numbers from `sn` on
unfoldable pub received : PacketArrivalTimeMap → ℕ → ℤ → List (ℤ × ℤ)
received m zero sn = []
received m (suc k) sn =
    let rest = received m k (sn +ℤ pos 1) in
    if leb_ℤ (pos 0) (get m sn) then (sn, get m sn) ∷ rest else rest

pub received_nil : (m : PacketArrivalTimeMap) (k : ℕ) (sn : ℤ) → k ≡ 0 → received m k sn ≡ []
unfolding received
received_nil m zero sn e = refl
received_nil m (suc k) sn e = absurd (omega arith)

-- The search from `sn` over `k` numbers.
pub data Search (m : PacketArrivalTimeMap) (k : ℕ) (sn : ℤ) (o : Option (ℤ × ℤ)) : Type 0 where
  nothing : o ≡ none → received m k sn ≡ [] → Search m k sn o
  found :
      (d j : ℕ) (t : ℤ)
      → o ≡ some (sn +ℤ pos d, t)
      → d + 1 + j ≡ k
      → pos 0 ≤ℤ t
      → received m k sn ≡ (sn +ℤ pos d, t) ∷ received m j (sn +ℤ pos d +ℤ pos 1)
      → Search m k sn o

pub plus_zero : (a : ℤ) → a +ℤ pos 0 ≡ a
plus_zero a = eq_of_parts _ _ (omega (arith, +ℤ_parts a (pos 0)))

pub plus_plus : (a : ℤ) (k d : ℕ) → a +ℤ pos k +ℤ pos d ≡ a +ℤ pos (k + d)
plus_plus a k d =
    eq_of_parts _ _
      (omega (arith, +ℤ_parts (a +ℤ pos k) (pos d), +ℤ_parts a (pos k), +ℤ_parts a (pos (k + d))))

find_from-Search : (m : PacketArrivalTimeMap) (k : ℕ) (sn : ℤ) → Search m k sn (find_from m k sn)
unfolding find_from received
find_from-Search m zero sn = nothing refl refl
find_from-Search m (suc k) sn = elim (Bool-cases (leb_ℤ (pos 0) (get m sn))) [
  | inl e ↦
      found 0 k (get m sn)
        (rw (e, find_from) (ap (λ (a : ℤ). some (a, get m sn)) (sym (plus_zero sn)))) (omega arith)
        (ground arith)
        (rw e (ap (λ (a : ℤ). (a, get m sn) ∷ received m k (a +ℤ pos 1)) (sym (plus_zero sn))))
  | inr e ↦ elim (find_from-Search m k (sn +ℤ pos 1)) [
    | nothing a b ↦ nothing (rw (e, find_from) a) (rw e b)
    | found d j t a l p b ↦
        let q : sn +ℤ pos 1 +ℤ pos d ≡ sn +ℤ pos (suc d) =
          plus_plus sn 1 d ∙ ap (λ (z : ℕ). sn +ℤ pos z) (omega arith) in
        found (suc d) j t (rw (e, find_from) (a ∙ ap (λ (z : ℤ). some (z, t)) q)) (omega (arith, l))
          p (rw e (b ∙ ap (λ (z : ℤ). (z, t) ∷ received m j (z +ℤ pos 1)) q))
  ]
]

-- From inside the range, the search is over the rest of it.
pub find_next-Search :
    (m : PacketArrivalTimeMap) (k : ℕ) (sn : ℤ)
    → m.begin_sequence_number ≤ℤ sn
    → sn +ℤ pos k ≡ m.end_sequence_number
    → Search m k sn (find_next_at_or_after m sn)
unfolding find_next_at_or_after span
find_next-Search m k sn h e =
    let plus = +ℤ_parts sn (pos k) in
    let c : clamp m sn ≡ sn = ground (arith, plus, eq_parts e) in
    let n : pos_part (m.end_sequence_number -ℤ sn) ≡ k = omega (
      arith,
      plus,
      eq_parts e,
      -ℤ_parts m.end_sequence_number sn,
      one_part (m.end_sequence_number -ℤ sn),
    ) in
    rw (c, n) (find_from-Search m k sn)

-- Nothing has come that is before the range.
pub received_before :
    (m : PacketArrivalTimeMap) (d k n : ℕ) (sn : ℤ)
    → d + k ≡ n
    → sn +ℤ pos d ≡ m.begin_sequence_number
    → received m n sn ≡ received m k m.begin_sequence_number
unfolding received
received_before m zero k n sn l e =
    ap₂ (λ (i : ℕ) (a : ℤ). received m i a) (omega (arith, l)) (sym (plus_zero sn) ∙ e)
received_before m (suc d) k zero sn l e = absurd (omega (arith, l))
received_before m (suc d) k (suc n) sn l e =
    let out : get m sn ≡ never =
      get_out m sn (λ i. omega (arith, i.0, eq_parts e, +ℤ_parts sn (pos (suc d)))) in
    let q : sn +ℤ pos 1 +ℤ pos d ≡ sn +ℤ pos (suc d) =
      plus_plus sn 1 d ∙ ap (λ (z : ℕ). sn +ℤ pos z) (omega arith) in
    rw out (received_before m d k n (sn +ℤ pos 1) (omega (arith, l)) (q ∙ e))
