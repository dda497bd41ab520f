-- ===== src/Twcc/ArrivalTimeMap/Ring.antt =====
-- The ring of the arrival times: what its loops of writes leave in it.
use interceptor.Common.{
  ℕ, zero, suc, ◌<◌, ◌≡◌, ◌≢◌, refl, sym, ap, subst, ◌∙◌, inl, inr, ◌&&◌, List, if◌then◌else◌,
  length, length-set, get_or, set, get_or-set_self, get_or-set_ne, length-replicate, replicate,
  arith, Bool-cases,
}
use interceptor.Common.Int.{
  ℤ, pos, pos_part, ◌+ℤ◌, ◌-ℤ◌, ◌≤ℤ◌, ◌<ℤ◌, ltb_ℤ, leb_ℤ, eqb_ℤ, emod, +ℤ_parts, -ℤ_parts,
  eq_of_parts, one_part, eqb_ℤ_iff,
}
use interceptor.Common.Window.{emod-ne, emod-lt}
use interceptor.Twcc.ArrivalTimeMap.{
  PacketArrivalTimeMap, capacity, never, index, get, span, each, write, set_not_received, copy,
  reallocate,
}

-- `n` is one of the `c` numbers from `lo` on.
abbrev pub Within : ℤ → ℕ → ℤ → Type 0
Within lo c n = (lo ≤ℤ n) × (n <ℤ lo +ℤ pos c)

pub place-ne :
    (lo : ℤ) (c : ℕ) (a b : ℤ) → Within lo c a → Within lo c b → a ≢ b → emod a c ≢ emod b c
place-ne lo c a b p q ne = elim (Bool-cases (ltb_ℤ a b)) [
  | inl h ↦ emod-ne a b c (ground arith) (omega (arith, +ℤ_parts a (pos c), +ℤ_parts lo (pos c)))
  | inr h ↦ λ e.
      emod-ne b a c (ground (arith, eq_of_parts a b))
        (omega (arith, +ℤ_parts b (pos c), +ℤ_parts lo (pos c))) (sym e)
]

-- one write, as it is read
pub get_or-write :
    (xs : List ℤ) (c : ℕ) (lo a n v : ℤ)
    → length xs ≡ c
    → Within lo c a
    → Within lo c n
    → get_or (set xs (emod a c) v) (emod n c) (pos 0)
      ≡ (if eqb_ℤ a n then v else get_or xs (emod n c) (pos 0))
get_or-write xs c lo a n v l p q = elim (Bool-cases (eqb_ℤ a n)) [
  | inl e ↦
      let same : a ≡ n = ground (arith, eqb_ℤ_iff a n) in
      let z : emod a c < length xs =
        omega (arith, l, emod-lt a c (omega (arith, +ℤ_parts lo (pos c)))) in
      rw e (
        ap (λ (i : ℤ). get_or (set xs (emod a c) v) (emod i c) (pos 0)) (sym same)
        ∙ get_or-set_self xs (emod a c) v (pos 0) z)
  | inr e ↦
      let other : a ≢ n = ground (arith, eqb_ℤ_iff a n) in
      rw e (get_or-set_ne xs (emod a c) (emod n c) v (pos 0) (place-ne lo c a n p q other))
]

-- A loop whose round at `a` changes what is read at `a` only, to `v a`.
module _ {S : Type 0} (body : ℤ → S → S) (at : S → ℤ → ℤ) (v : ℤ → ℤ) (Ok : S → Type 0) (lo : ℤ)
    (c : ℕ)
    (step : (a : ℤ) (s : S)
      → Ok s
      → Within lo c a
      → Ok (body a s)
        × ((n : ℤ) → Within lo c n → at (body a s) n ≡ (if eqb_ℤ a n then v n else at s n))) where
  pub each-reads :
      (k : ℕ) (a : ℤ) (s : S)
      → Ok s
      → lo ≤ℤ a
      → a +ℤ pos k ≤ℤ lo +ℤ pos c
      → Ok (each body k a s)
        × ((n : ℤ)
            → Within lo c n
            → at (each body k a s) n ≡ (if leb_ℤ a n && ltb_ℤ n (a +ℤ pos k) then v n else at s n))
  unfolding each
  each-reads zero a s o h k = (o, λ n w. ground (arith, +ℤ_parts a (pos 0)))
  each-reads (suc k) a s o h l =
      let facts : (a +ℤ pos 1) +ℤ pos k ≡ a +ℤ pos (suc k) = eq_of_parts _ _ (
        omega
          (arith, +ℤ_parts (a +ℤ pos 1) (pos k), +ℤ_parts a (pos 1), +ℤ_parts a (pos (suc k)))) in
      let w : Within lo c a =
        (h, omega (arith, l, +ℤ_parts a (pos (suc k)), +ℤ_parts lo (pos c))) in
      let r = step a s o w in
      let q =
        each-reads k (a +ℤ pos 1) (body a s) r.0 (omega (arith, h, +ℤ_parts a (pos 1)))
          (subst (λ (t : ℤ). t ≤ℤ lo +ℤ pos c) (sym facts) l) in
      (
        q.0,
        λ n i. ground (
          arith,
          q.1 n i,
          r.1 n i,
          eqb_ℤ_iff a n,
          +ℤ_parts (a +ℤ pos 1) (pos k),
          +ℤ_parts a (pos 1),
          +ℤ_parts a (pos (suc k)),
        ),
      )

-- what stands in the place of `n`, in the range or not
abbrev pub at : PacketArrivalTimeMap → ℤ → ℤ
at m n = get_or m.arrival_times (index m n) (pos 0)

abbrev pub InRange : PacketArrivalTimeMap → ℤ → Type 0
InRange m n = (m.begin_sequence_number ≤ℤ n) × (n <ℤ m.end_sequence_number)

pub get_in : (m : PacketArrivalTimeMap) (n : ℤ) → InRange m n → get m n ≡ at m n
unfolding get
get_in m n h = ground arith

pub get_out : (m : PacketArrivalTimeMap) (n : ℤ) → ¬ (InRange m n) → get m n ≡ never
unfolding get
get_out m n h = ground arith

-- The size of the ring and the ends of the range.
abbrev pub Shaped : ℕ → ℤ → ℤ → PacketArrivalTimeMap → Type 0
Shaped c b e m = (capacity m ≡ c) × (m.begin_sequence_number ≡ b) × (m.end_sequence_number ≡ e)

pub write-at :
    (m : PacketArrivalTimeMap) (lo : ℤ) (c : ℕ) (b e t a : ℤ)
    → Shaped c b e m
    → Within lo c a
    → Shaped c b e (write t a m)
      × ((n : ℤ) → Within lo c n → at (write t a m) n ≡ (if eqb_ℤ a n then t else at m n))
unfolding write
write-at m lo c b e t a s w =
    let l : length (set m.arrival_times (emod a (capacity m)) t) ≡ capacity m =
      length-set m.arrival_times (emod a (capacity m)) t in
    (
      (l ∙ s.0, s.1, s.2),
      λ n i.
          let p : Within lo (capacity m) a = subst (λ (k : ℕ). Within lo k a) (sym s.0) w in
          let q : Within lo (capacity m) n = subst (λ (k : ℕ). Within lo k n) (sym s.0) i in
          ap (λ (k : ℕ). get_or (set m.arrival_times (emod a (capacity m)) t) (emod n k) (pos 0)) l
          ∙ get_or-write m.arrival_times (capacity m) lo a n t refl p q,
    )

pub span_end : (from to : ℤ) → from ≤ℤ to → from +ℤ pos (span from to) ≡ to
unfolding span
span_end from to r = eq_of_parts _ _ (
    omega
      (arith, +ℤ_parts from (pos (pos_part (to -ℤ from))), -ℤ_parts to from, one_part (to -ℤ from)))

pub set_not_received-at :
    (m : PacketArrivalTimeMap) (lo : ℤ) (c : ℕ) (b e from to : ℤ)
    → Shaped c b e m
    → lo ≤ℤ from
    → from ≤ℤ to
    → to ≤ℤ lo +ℤ pos c
    → Shaped c b e (set_not_received m from to)
      × ((n : ℤ)
          → Within lo c n
          → at (set_not_received m from to) n
            ≡ (if leb_ℤ from n && ltb_ℤ n to then never else at m n))
unfolding set_not_received
set_not_received-at m lo c b e from to s h r l =
    let k : from +ℤ pos (span from to) ≡ to = span_end from to r in
    let q =
      each-reads (write never) at (λ _. never) (Shaped c b e) lo c
        (λ a t o w. write-at t lo c b e never a o w) (span from to) from m s h
        (subst (λ (z : ℤ). z ≤ℤ lo +ℤ pos c) (sym k) l) in
    (q.0, λ n w. q.1 n w ∙ ap (λ (z : ℤ). if leb_ℤ from n && ltb_ℤ n z then never else at m n) k)

value :
    (m : PacketArrivalTimeMap) (a n x : ℤ)
    → (if eqb_ℤ a n then get m a else x) ≡ (if eqb_ℤ a n then get m n else x)
value m a n x = elim (Bool-cases (eqb_ℤ a n)) [
  | inl e ↦
      let same : a ≡ n = ground (arith, eqb_ℤ_iff a n) in
      ap (λ (t : ℤ). if eqb_ℤ a n then t else x) (ap (get m) same)
  | inr e ↦ rw e refl
]

-- A ring of another size that is large enough holds what the range held.
pub reallocate-at :
    (m : PacketArrivalTimeMap) (c : ℕ)
    → m.begin_sequence_number ≤ℤ m.end_sequence_number
    → m.end_sequence_number ≤ℤ m.begin_sequence_number +ℤ pos c
    → Shaped c m.begin_sequence_number m.end_sequence_number (reallocate m c)
      × ((n : ℤ) → InRange m n → at (reallocate m c) n ≡ get m n)
unfolding reallocate
reallocate-at m c r l =
    let b = m.begin_sequence_number in
    let k : b +ℤ pos (span b m.end_sequence_number) ≡ m.end_sequence_number = span_end b _ r in
    let q =
      each-reads (copy m c) (λ (xs : List ℤ) n. get_or xs (emod n c) (pos 0)) (get m)
        (λ (xs : List ℤ). length xs ≡ c) b c
        (λ a xs o w. (
          length-set xs (emod a c) (get m a) ∙ o,
          λ n i.
              get_or-write xs c b a n (get m a) o w i ∙ value m a n (get_or xs (emod n c) (pos 0)),
        ))
        (span b m.end_sequence_number) b (replicate c (pos 0)) (length-replicate c (pos 0))
        (omega arith) (subst (λ (z : ℤ). z ≤ℤ b +ℤ pos c) (sym k) l) in
    (
      (q.0, refl, refl),
      λ n i.
          let w : Within b c n = (i.0, omega (arith, i.1, l)) in
          ap (λ (z : ℕ). get_or (reallocate m c).arrival_times (emod n z) (pos 0)) q.0
          ∙ (q.1 n w ∙ ground (arith, ap (λ (z : ℤ). ltb_ℤ n z) k)),
    )
