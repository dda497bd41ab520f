-- ===== src/Nack/ReceiveLog/Missing.antt =====
-- What `missingSeqNumbers` returns.
use interceptor.Common.{
  ℕ, zero, suc, ◌+◌, ◌-◌, ◌%◌, ◌≤◌, ◌<◌, ◌≡◌, refl, ap, ◌∙◌, ltb, leb, uint16_size_half, Bool, true,
  false, some, List, [], ◌∷◌, arith, if◌then◌else◌, sub16, add16, Bool-cases, inl, inr,
}
use interceptor.Nack.ReceiveLog.{ReceiveLog, get_received, missing_from, missing_seq_numbers, get}
use interceptor.Nack.ReceiveLog.Ring.{IsRing}
use interceptor.Nack.ReceiveLog.Add.{IsValid}

-- The `k` numbers from `i` on, as uint16, of which `p` fails.
pub failing : (ℕ → Bool) → ℕ → ℕ → List ℕ
failing p zero i = []
failing p (suc k) i = let rest = failing p k (add16 i 1) in if p i then rest else i ∷ rest

failing_zero : (p : ℕ → Bool) (i : ℕ) → failing p 0 i ≡ []
unfolding failing
failing_zero p i = refl

missing_from-failing :
    (s : ReceiveLog) (cap k i c : ℕ)
    → c + k ≤ cap
    → missing_from s cap k i c ≡ some (failing (get_received s) k i)
unfolding missing_from failing
missing_from-failing s cap zero i c h = refl
missing_from-failing s cap (suc k) i c h = ground (
  arith,
  missing_from-failing s cap k (add16 i 1) c,
  missing_from-failing s cap k (add16 i 1) (c + 1),
)

failing_cong :
    (p q : ℕ → Bool) (k i : ℕ)
    → ((t : ℕ) → t < k → p ((i + t) % 65536) ≡ q ((i + t) % 65536))
    → i < 65536
    → failing p k i ≡ failing q k i
unfolding failing
failing_cong p q zero i h hi = refl
failing_cong p q (suc k) i h hi =
    let e : (i + 0) % 65536 ≡ i = omega arith in
    let now : p i ≡ q i = rw e at (h 0 (omega arith)) in
    let ih =
      failing_cong p q k (add16 i 1)
        (λ t ht.
          let f : (i + (t + 1)) % 65536 ≡ (add16 i 1 + t) % 65536 = omega arith in
          rw f at (h (t + 1) (omega arith)))
        (omega arith) in
    ground arith

get_received_within :
    (s : ReceiveLog) (i : ℕ) → IsRing s → sub16 s.end i < s.size → get_received s i ≡ get s i
unfolding get
get_received_within s i v h = ground arith

failing_within :
    (s : ReceiveLog) (n : ℕ)
    → IsValid s
    → n ≤ sub16 s.end s.last_consecutive
    → failing (get_received s) n (add16 s.last_consecutive 1)
      ≡ failing (get s) n (add16 s.last_consecutive 1)
failing_within s n v h =
    failing_cong (get_received s) (get s) n (add16 s.last_consecutive 1)
      (λ t ht.
        get_received_within s ((add16 s.last_consecutive 1 + t) % 65536) v.ring (omega arith))
      (omega arith)

-- For `skipLastN` below half the range, and a last consecutive number less than half the range
-- behind `end`, `missingSeqNumbers` never writes past a slice of `size` places, and returns, in
-- ascending order, exactly the numbers after `lastConsecutive` and up to `end - skipLastN` that `get`
-- does not report as received.
pub missing_exact :
    (s : ReceiveLog) (skip : ℕ)
    → IsValid s
    → skip < 32768
    → sub16 s.end s.last_consecutive < 32768
    → missing_seq_numbers s skip s.size
      ≡ some (failing (get s) (sub16 s.end s.last_consecutive - skip) (add16 s.last_consecutive 1))
unfolding missing_seq_numbers
missing_exact s skip v h d =
    let n = sub16 s.end s.last_consecutive - skip in
    elim (Bool-cases (ltb (sub16 s.end s.last_consecutive) skip)) [
      | inl e ↦
          let z : n ≡ 0 = ground arith in
          let b : leb uint16_size_half (sub16 (sub16 s.end skip) s.last_consecutive) ≡ true =
            ground arith in
          rw b (
            ground (
              arith,
              ap (λ k. failing (get s) k (add16 s.last_consecutive 1)) z,
              failing_zero (get s) (add16 s.last_consecutive 1),
            ))
      | inr e ↦
          let b : leb uint16_size_half (sub16 (sub16 s.end skip) s.last_consecutive) ≡ false =
            ground arith in
          let k : sub16 (add16 (sub16 s.end skip) 1) (add16 s.last_consecutive 1) ≡ n =
            ground arith in
          rw (b, k)
            (missing_from-failing s s.size n (add16 s.last_consecutive 1) 0
                (omega (arith, v.within))
              ∙ ap some (failing_within s n v (omega arith)))
    ]
