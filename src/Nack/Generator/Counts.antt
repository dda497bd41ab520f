-- ===== src/Nack/Generator/Counts.antt =====
-- How often a packet is asked for.
use interceptor.Common.{ℕ, suc, List, [], ◌∷◌, ltb, ◌==◌, if◌then◌else◌}

abbrev pub min : ℕ → ℕ → ℕ
min a b = if ltb a b then a else b

unfoldable pub occurrences : ℕ → List ℕ → ℕ
occurrences n [] = 0
occurrences n (x ∷ xs) = let rest = occurrences n xs in if x == n then suc rest else rest
