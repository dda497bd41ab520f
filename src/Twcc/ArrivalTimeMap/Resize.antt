-- ===== src/Twcc/ArrivalTimeMap/Resize.antt =====
-- The ring when it grows and shrinks: its size stays a power of two between the bounds, is large
-- enough, and what the range holds is kept.
use interceptor.Common.{
  ℕ, zero, suc, ◌+◌, ◌*◌, ◌/◌, ◌≤◌, ◌<◌, ◌≡◌, refl, sym, subst, ◌∙◌, inl, inr, true, ltb, leb,
  arith, Bool-cases, if_elim,
}
use interceptor.Common.Int.{ℤ, pos, ◌+ℤ◌, ◌≤ℤ◌, +ℤ_parts, eq_parts}
use interceptor.Common.Range.{is_power}
use interceptor.Twcc.ArrivalTimeMap.{
  PacketArrivalTimeMap, capacity, double, halve, max, min_capacity, grow, shrink, adjust_to_size,
  reallocate,
}
use interceptor.Twcc.ArrivalTimeMap.Ring.{at, InRange, get_in, reallocate-at}

-- 128, 256, ... or 32768
abbrev pub IsCapacity : ℕ → Type 0
IsCapacity c = is_power 9 7 c ≡ true

pub record IsValid (m : PacketArrivalTimeMap) : Type 0 where
  pub power : IsCapacity (capacity m)
  pub ordered : m.begin_sequence_number ≤ℤ m.end_sequence_number
  pub fits : m.end_sequence_number ≤ℤ m.begin_sequence_number +ℤ pos (capacity m)

pub IsCapacity-bounds : (c : ℕ) → IsCapacity c → (128 ≤ c) × (c ≤ 32768)
unfolding is_power
IsCapacity-bounds c h = ground arith

mul-IsCapacity : (c : ℕ) → IsCapacity c → c < 32768 → IsCapacity (c * 2)
unfolding is_power
mul-IsCapacity c h l = ground arith

div-IsCapacity : (c : ℕ) → IsCapacity c → 256 ≤ c → IsCapacity (c / 2)
unfolding is_power
div-IsCapacity c h l = ground arith

pub double-IsCapacity :
    (k c size : ℕ)
    → IsCapacity c
    → size ≤ 32768
    → size ≤ c + k
    → IsCapacity (double k c size) × (size ≤ double k c size)
unfolding double
double-IsCapacity zero c size h l f = (h, omega arith)
double-IsCapacity (suc k) c size h l f = elim (Bool-cases (ltb c size)) [
  | inl e ↦
      let b = IsCapacity-bounds c h in
      rw e
        (double-IsCapacity k (c * 2) size (mul-IsCapacity c h (ground arith)) l (omega (arith, b)))
  | inr e ↦ rw e (h, ground arith)
]

pub halve-IsCapacity :
    (k c size : ℕ)
    → IsCapacity c
    → size ≤ c
    → c ≤ k
    → IsCapacity (halve k c (2 * max size 128))
      × (size ≤ halve k c (2 * max size 128))
      × (halve k c (2 * max size 128) < 2 * max size 128)
unfolding halve
halve-IsCapacity zero c size h l f = absurd (omega (arith, IsCapacity-bounds c h))
halve-IsCapacity (suc k) c size h l f = elim (Bool-cases (leb (2 * max size 128) c)) [
  | inl e ↦
      let b : 256 ≤ c = ground arith in
      let n : size ≤ c / 2 = ground arith in
      rw e (halve-IsCapacity k (c / 2) size (div-IsCapacity c h b) n (omega arith))
  | inr e ↦ rw e (h, l, ground arith)
]

-- `m'` has the range of `m` and what it holds, in a ring of at least `size` places.
pub record Resized (size : ℕ) (m m' : PacketArrivalTimeMap) : Type 0 where
  pub power : IsCapacity (capacity m')
  pub room : size ≤ capacity m'
  pub begins : m'.begin_sequence_number ≡ m.begin_sequence_number
  pub ends : m'.end_sequence_number ≡ m.end_sequence_number
  pub same : (n : ℤ) → InRange m n → at m' n ≡ at m n

Resized-same :
    (size : ℕ) (m : PacketArrivalTimeMap) → IsValid m → size ≤ capacity m → Resized size m m
Resized-same size m v l = record {
  power = v.power;
  room = l;
  begins = refl;
  ends = refl;
  same = λ n i. refl;
}

reallocate-Resized :
    (size c : ℕ) (m : PacketArrivalTimeMap)
    → IsValid m
    → IsCapacity c
    → size ≤ c
    → m.end_sequence_number ≤ℤ m.begin_sequence_number +ℤ pos size
    → Resized size m (reallocate m c)
reallocate-Resized size c m v p l f =
    let r = reallocate-at m c v.ordered (
      omega (
        arith,
        f,
        +ℤ_parts m.begin_sequence_number (pos size),
        +ℤ_parts m.begin_sequence_number (pos c),
      )) in
    record {
      power = subst IsCapacity (sym r.0.0) p;
      room = omega (arith, r.0.0);
      begins = r.0.1;
      ends = r.0.2;
      same = λ n i. r.1 n i ∙ get_in m n i;
    }

grow-Resized :
    (m : PacketArrivalTimeMap) (size : ℕ)
    → IsValid m
    → size ≤ 32768
    → m.end_sequence_number ≤ℤ m.begin_sequence_number +ℤ pos size
    → Resized size m (grow m size)
unfolding grow
grow-Resized m size v b f =
    if_elim (Resized size m) (ltb (capacity m) size) _ m
      (λ e.
        let d = double-IsCapacity size (capacity m) size v.power b (omega arith) in
        reallocate-Resized size _ m v d.0 d.1 f)
      (λ e. Resized-same size m v (ground arith))

shrink-Resized :
    (m : PacketArrivalTimeMap) (size : ℕ)
    → IsValid m
    → size ≤ capacity m
    → m.end_sequence_number ≤ℤ m.begin_sequence_number +ℤ pos size
    → Resized size m (shrink m size)
unfolding shrink
shrink-Resized m size v b f =
    if_elim (Resized size m) (ltb (max min_capacity (size * 4)) (capacity m)) _ m
      (λ e.
        let d = halve-IsCapacity (capacity m) (capacity m) size v.power b (omega arith) in
        reallocate-Resized size _ m v d.0 d.1 f)
      (λ e. Resized-same size m v b)

pub Resized-IsValid :
    (size : ℕ) (m m' : PacketArrivalTimeMap)
    → IsValid m
    → m.end_sequence_number ≤ℤ m.begin_sequence_number +ℤ pos size
    → Resized size m m'
    → IsValid m'
Resized-IsValid size m m' v f r = record {
  power = r.power;
  ordered = omega (arith, v.ordered, eq_parts r.begins, eq_parts r.ends);
  fits = omega (
    arith,
    f,
    r.room,
    eq_parts r.begins,
    eq_parts r.ends,
    +ℤ_parts m.begin_sequence_number (pos size),
    +ℤ_parts m'.begin_sequence_number (pos (capacity m')),
  );
}

-- Two changes of size, one after the other.
Resized-trans :
    (size : ℕ) (m m' m'' : PacketArrivalTimeMap)
    → Resized size m m'
    → Resized size m' m''
    → Resized size m m''
Resized-trans size m m' m'' r s = record {
  power = s.power;
  room = s.room;
  begins = s.begins ∙ r.begins;
  ends = s.ends ∙ r.ends;
  same = λ n i.
      s.same n (omega (arith, i, eq_parts r.begins), omega (arith, i, eq_parts r.ends))
      ∙ r.same n i;
}

pub adjust_to_size-Resized :
    (m : PacketArrivalTimeMap) (size : ℕ)
    → IsValid m
    → size ≤ 32768
    → m.end_sequence_number ≤ℤ m.begin_sequence_number +ℤ pos size
    → Resized size m (adjust_to_size m size)
unfolding adjust_to_size
adjust_to_size-Resized m size v b f =
    let g = grow-Resized m size v b f in
    let w = Resized-IsValid size m (grow m size) v f g in
    Resized-trans size m (grow m size) _ g (
      shrink-Resized (grow m size) size w g.room (
        omega (
          arith,
          f,
          eq_parts g.begins,
          eq_parts g.ends,
          +ℤ_parts m.begin_sequence_number (pos size),
          +ℤ_parts (grow m size).begin_sequence_number (pos size),
        )))
