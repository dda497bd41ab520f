-- ===== src/Twcc/Feedback/Decode.antt =====
-- What the receiver of a feedback packet reads: for each status of a packet that has come, its
-- sequence number and its time, which is that of the one before it and the next delta.
use interceptor.Common.{
  ℕ, zero, suc, ◌+◌, ◌%◌, ◌<◌, ◌≡◌, refl, ap, ◌∙◌, Bool, true, false, List, [], ◌∷◌, ◌++◌, arith,
  length, replicate, if◌then◌else◌, add16,
}
use interceptor.Common.Int.{ℤ, ◌+ℤ◌}
use interceptor.Twcc.Chunk.{Symbol, not_received, small_delta, large_delta, same}
use interceptor.Twcc.Feedback.{RecvDelta}

abbrev pub is_received : Symbol → Bool
is_received not_received = false
is_received small_delta = true
is_received large_delta = true

-- The statuses of the numbers from `n` on, and the deltas that are left. A delta of another size than
-- the status says is not read.
pub decode : ℕ → ℤ → List Symbol → List RecvDelta → List (ℕ × ℤ)
unfolding ◌+ℤ◌
decode n t [] ds = []
decode n t (not_received ∷ ss) ds = decode (add16 n 1) t ss ds
decode n t (small_delta ∷ ss) [] = []
decode n t (large_delta ∷ ss) [] = []
decode n t (small_delta ∷ ss) (d ∷ ds) =
    let rest = (n, t +ℤ d.delta) ∷ decode (add16 n 1) (t +ℤ d.delta) ss ds in
    if same small_delta d.type then rest else []
decode n t (large_delta ∷ ss) (d ∷ ds) =
    let rest = (n, t +ℤ d.delta) ∷ decode (add16 n 1) (t +ℤ d.delta) ss ds in
    if same large_delta d.type then rest else []

-- the time after some deltas
abbrev pub advance : ℤ → List RecvDelta → ℤ
advance t [] = t
advance t (d ∷ ds) = advance (t +ℤ d.delta) ds

-- There is a delta of the right size for each status of a packet that has come.
abbrev pub Matches : List Symbol → List RecvDelta → Type 0
Matches [] [] = Unit
Matches [] (d ∷ ds) = ⊥
Matches (not_received ∷ ss) ds = Matches ss ds
Matches (small_delta ∷ ss) [] = ⊥
Matches (large_delta ∷ ss) [] = ⊥
Matches (small_delta ∷ ss) (d ∷ ds) = (d.type ≡ small_delta) × Matches ss ds
Matches (large_delta ∷ ss) (d ∷ ds) = (d.type ≡ large_delta) × Matches ss ds

-- A status appended that stands for a packet: its time is that of all the deltas.
abbrev pub snoc {ℓ} : {A : Type ℓ} → List A → A → List A
snoc xs x = xs ++ (x ∷ [])

pub decode-nil : (n : ℕ) (t : ℤ) (ds : List RecvDelta) → decode n t [] ds ≡ []
unfolding decode
decode-nil n t ds = refl

decode-gap : (k n : ℕ) (t : ℤ) → decode n t (replicate k not_received) [] ≡ []
unfolding decode
decode-gap zero n t = refl
decode-gap (suc k) n t = decode-gap k (add16 n 1) t

pub decode-skip :
    (k n : ℕ) (t : ℤ) (ss : List Symbol) (ds : List RecvDelta)
    → Matches ss ds
    → decode n t (ss ++ replicate k not_received) ds ≡ decode n t ss ds
unfolding decode
decode-skip k n t [] [] m = decode-gap k n t
decode-skip k n t [] (d ∷ ds) m = absurd m
decode-skip k n t (not_received ∷ ss) ds m = decode-skip k (add16 n 1) t ss ds m
decode-skip k n t (small_delta ∷ ss) [] m = absurd m
decode-skip k n t (large_delta ∷ ss) [] m = absurd m
decode-skip k n t (small_delta ∷ ss) (d ∷ ds) m =
    rw (decode-skip k (add16 n 1) (t +ℤ d.delta) ss ds m.1) refl
decode-skip k n t (large_delta ∷ ss) (d ∷ ds) m =
    rw (decode-skip k (add16 n 1) (t +ℤ d.delta) ss ds m.1) refl

decode-one :
    (n : ℕ) (t : ℤ) (s : Symbol) (d : RecvDelta)
    → is_received s ≡ true
    → d.type ≡ s
    → decode n t (s ∷ []) (d ∷ []) ≡ (n, t +ℤ d.delta) ∷ []
unfolding decode
decode-one n t not_received d r e = absurd (ground arith)
decode-one n t small_delta d r e = rw e refl
decode-one n t large_delta d r e = rw e refl

snoc_index :
    (xs : List (ℕ × ℤ)) (n k : ℕ) (u : ℤ)
    → snoc xs ((add16 n 1 + k) % 65536, u) ≡ snoc xs ((n + suc k) % 65536, u)
snoc_index xs n k u =
    let e : (add16 n 1 + k) % 65536 ≡ (n + suc k) % 65536 = omega arith in
    ap (λ (i : ℕ). snoc xs (i, u)) e

pub decode-receive :
    (n : ℕ) (t : ℤ) (ss : List Symbol) (ds : List RecvDelta) (s : Symbol) (d : RecvDelta)
    → n < 65536
    → is_received s ≡ true
    → d.type ≡ s
    → Matches ss ds
    → decode n t (snoc ss s) (snoc ds d)
      ≡ snoc (decode n t ss ds) ((n + length ss) % 65536, advance t ds +ℤ d.delta)
unfolding decode
decode-receive n t [] [] s d b r e m =
    let z : (n + 0) % 65536 ≡ n = omega arith in rw z (decode-one n t s d r e)
decode-receive n t [] (x ∷ ds) s d b r e m = absurd m
decode-receive n t (not_received ∷ ss) ds s d b r e m =
    decode-receive (add16 n 1) t ss ds s d (omega arith) r e m
    ∙ snoc_index (decode (add16 n 1) t ss ds) n (length ss) (advance t ds +ℤ d.delta)
decode-receive n t (small_delta ∷ ss) [] s d b r e m = absurd m
decode-receive n t (large_delta ∷ ss) [] s d b r e m = absurd m
decode-receive n t (small_delta ∷ ss) (x ∷ ds) s d b r e m = rw m.0 (
    ap (λ (xs : List (ℕ × ℤ)). (n, t +ℤ x.delta) ∷ xs)
      (decode-receive (add16 n 1) (t +ℤ x.delta) ss ds s d (omega arith) r e m.1
        ∙ snoc_index (decode (add16 n 1) (t +ℤ x.delta) ss ds) n (length ss) _))
decode-receive n t (large_delta ∷ ss) (x ∷ ds) s d b r e m = rw m.0 (
    ap (λ (xs : List (ℕ × ℤ)). (n, t +ℤ x.delta) ∷ xs)
      (decode-receive (add16 n 1) (t +ℤ x.delta) ss ds s d (omega arith) r e m.1
        ∙ snoc_index (decode (add16 n 1) (t +ℤ x.delta) ss ds) n (length ss) _))

pub Matches-skip :
    (k : ℕ) (ss : List Symbol) (ds : List RecvDelta)
    → Matches ss ds
    → Matches (ss ++ replicate k not_received) ds
Matches-skip zero [] [] m = m
Matches-skip (suc k) [] [] m = Matches-skip k [] [] m
Matches-skip k [] (d ∷ ds) m = absurd m
Matches-skip k (not_received ∷ ss) ds m = Matches-skip k ss ds m
Matches-skip k (small_delta ∷ ss) [] m = absurd m
Matches-skip k (large_delta ∷ ss) [] m = absurd m
Matches-skip k (small_delta ∷ ss) (d ∷ ds) m = (m.0, Matches-skip k ss ds m.1)
Matches-skip k (large_delta ∷ ss) (d ∷ ds) m = (m.0, Matches-skip k ss ds m.1)

pub Matches-receive :
    (ss : List Symbol) (ds : List RecvDelta) (s : Symbol) (d : RecvDelta)
    → is_received s ≡ true
    → d.type ≡ s
    → Matches ss ds
    → Matches (snoc ss s) (snoc ds d)
Matches-receive [] [] not_received d r e m = absurd (ground arith)
Matches-receive [] [] small_delta d r e m = (e, tt)
Matches-receive [] [] large_delta d r e m = (e, tt)
Matches-receive [] (x ∷ ds) s d r e m = absurd m
Matches-receive (not_received ∷ ss) ds s d r e m = Matches-receive ss ds s d r e m
Matches-receive (small_delta ∷ ss) [] s d r e m = absurd m
Matches-receive (large_delta ∷ ss) [] s d r e m = absurd m
Matches-receive (small_delta ∷ ss) (x ∷ ds) s d r e m = (m.0, Matches-receive ss ds s d r e m.1)
Matches-receive (large_delta ∷ ss) (x ∷ ds) s d r e m = (m.0, Matches-receive ss ds s d r e m.1)

pub advance-snoc :
    (t : ℤ) (ds : List RecvDelta) (d : RecvDelta) → advance t (snoc ds d) ≡ advance t ds +ℤ d.delta
advance-snoc t [] d = refl
advance-snoc t (x ∷ ds) d = advance-snoc (t +ℤ x.delta) ds d
