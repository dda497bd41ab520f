-- ===== src/FlexFec/Coverage/Grid.antt =====
-- The bits of the masks that `UpdateCoverage` makes anew.
use native.Mathlib.Nat.{
  mod-eq_of_lt, mod-eq-sub-mod, mod-add-mod, div-add-mod, mul-mod_right, zero-mod,
}
use interceptor.Common.{
  ℕ, zero, suc, ◌+◌, ◌-◌, ◌*◌, ◌/◌, ◌%◌, ◌≤◌, ◌<◌, ◌≡◌, sym, ap, ◌∙◌, inl, inr, Bool, true, ◌&&◌,
  List, ltb, leb, ◌==◌, if◌then◌else◌, arith, Bool-cases, if_elim, length, set, get_or-set_self,
  get_or-set_ne, get_or-replicate, length-set, length-replicate,
}
use interceptor.FlexFec.BitArray.{
  BitArray, empty, set_bit_at, get_bit_at, get_bit_at-set_bit_at, get_bit_at-empty,
}
use interceptor.FlexFec.Coverage.{cover, cover_all, mask_at, reset}

-- `x` is `j`, or a multiple of `n` after it.
abbrev pub on_grid : ℕ → ℕ → ℕ → Bool
on_grid n j x = leb j x && (x - j) % n == 0

grid_step : (n j x : ℕ) → 0 < n → on_grid n j x ≡ (if j == x then true else on_grid n (j + n) x)
grid_step n j x h =
    let e : x - (j + n) ≡ x - j - n = omega arith in
    ground (
      arith,
      ap (λ (d : ℕ). d % n) e,
      zero-mod n,
      λ (l : x - j < n). mod-eq_of_lt l,
      λ (l : n ≤ x - j). mod-eq-sub-mod l,
    )

-- what a mask covers after the loop: what it covered, and the grid from `j` on
cover-get_bit_at :
    (k j n m x : ℕ) (b : BitArray)
    → 0 < n
    → n ≤ 4294967168
    → m ≤ 128
    → m ≤ j + k
    → get_bit_at (cover k j n m b) x ≡ (if ltb x m && on_grid n j x then true else get_bit_at b x)
unfolding cover
cover-get_bit_at zero j n m x b h u l f = ground arith
cover-get_bit_at (suc k) j n m x b h u l f =
    if_elim
      (λ (c : BitArray).
        get_bit_at c x ≡ (if ltb x m && on_grid n j x then true else get_bit_at b x))
      (ltb j m) _ b
      (λ e.
        let small : (j + n) % 4294967296 ≡ j + n = mod-eq_of_lt (ground arith) in
        ap (λ z. get_bit_at (cover k z n m (set_bit_at b j)) x) small
        ∙ (cover-get_bit_at k (j + n) n m x (set_bit_at b j) h u l (omega (arith, f, h))
            ∙ ground (arith, get_bit_at-set_bit_at b j x, grid_step n j x h)))
      (λ e. ground arith)

grid_mod : (n i x : ℕ) → i < n → on_grid n i x ≡ (x % n == i)
grid_mod n i x h = elim (Bool-cases (leb i x)) [
  | inr e ↦ let l : x < n = ground arith in let r : x % n ≡ x = mod-eq_of_lt l in ground (arith, r)
  | inl e ↦
      let le : i ≤ x = ground arith in
      let back : ((x - i) % n + i) % n ≡ x % n =
        mod-add-mod (x - i) n i ∙ ap (λ (d : ℕ). d % n) (omega (arith, le)) in
      let small : i % n ≡ i = mod-eq_of_lt h in
      let up : (x - i) % n ≡ 0 → x % n ≡ i = λ z.
        sym back
        ∙ (ap (λ (d : ℕ). (d + i) % n) z ∙ (ap (λ (d : ℕ). d % n) (omega arith) ∙ small)) in
      let down : x % n ≡ i → (x - i) % n ≡ 0 = λ z.
        let w : x - i ≡ n * (x / n) = omega (arith, div-add-mod x n, z, le) in
        ap (λ (d : ℕ). d % n) w ∙ mul-mod_right n (x / n) in
      ground (arith, up, down)
]

mask_at-set :
    (masks : List BitArray) (i a : ℕ) (b : BitArray)
    → i < length masks
    → mask_at (set masks i b) a ≡ (if i == a then b else mask_at masks a)
mask_at-set masks i a b h =
    if_elim (λ (c : BitArray). mask_at (set masks i b) a ≡ c) (i == a) b (mask_at masks a)
      (λ e.
        let same : i ≡ a = ground arith in
        ap (λ (z : ℕ). mask_at (set masks i b) z) (sym same) ∙ get_or-set_self masks i b empty h)
      (λ e. get_or-set_ne masks i a b empty (ground arith))

-- What the loop over the repair packets leaves of the mask of one of them.
cover_all-mask_at :
    (k i n m a x : ℕ) (masks : List BitArray)
    → length masks ≡ 110
    → a < 110
    → get_bit_at (mask_at (cover_all k i n m masks) a) x ≡ (
        if leb i a && ltb a (i + k)
        then get_bit_at (cover m a n m (mask_at masks a)) x
        else get_bit_at (mask_at masks a) x)
unfolding cover_all
cover_all-mask_at zero i n m a x masks l h = ground arith
cover_all-mask_at (suc k) i n m a x masks l h =
    let c = cover m i n m (mask_at masks i) in
    let r = cover_all-mask_at k (i + 1) n m a x (set masks i c) (length-set masks i c ∙ l) h in
    elim (Bool-cases (i == a)) [
      | inl e ↦
          let same : i ≡ a = ground arith in
          let s = rw e at (mask_at-set masks i a c (omega (arith, l, h, same))) in
          let s' : mask_at (set masks i c) a ≡ cover m a n m (mask_at masks a) =
            s ∙ ap (λ (z : ℕ). cover m z n m (mask_at masks z)) same in
          ground (arith, r, ap (λ (b : BitArray). get_bit_at b x) s')
      | inr e ↦ elim (Bool-cases (ltb i 110)) [
        | inl z ↦
            let s = rw e at (mask_at-set masks i a c (ground arith)) in
            ground (
              arith,
              r,
              ap (λ (b : BitArray). get_bit_at b x) s,
              ap (λ (b : BitArray). get_bit_at (cover m a n m b) x) s,
            )
        | inr z ↦
            let s : mask_at (set masks i c) a ≡ mask_at masks a =
              get_or-set_ne masks i a c empty (ground arith) in
            ground (
              arith,
              r,
              ap (λ (b : BitArray). get_bit_at b x) s,
              ap (λ (b : BitArray). get_bit_at (cover m a n m b) x) s,
            )
      ]
    ]

pub get_bit_at-cover_all :
    (n i x m : ℕ)
    → n ≤ 4294967168
    → i < n
    → i < 110
    → m ≤ 110
    → get_bit_at (mask_at (cover_all n 0 n m reset) i) x ≡ (ltb x m && x % n == i)
get_bit_at-cover_all n i x m u h l f = ground (
  arith,
  cover_all-mask_at n 0 n m i x reset (length-replicate 110 empty) l,
  cover-get_bit_at m i n m x (mask_at reset i) (omega arith) u (omega arith) (omega arith),
  grid_mod n i x h,
  ap (λ (b : BitArray). get_bit_at b x) (get_or-replicate 110 i empty),
  get_bit_at-empty x,
)
