-- ===== src/Nack/Generator/Tests.antt =====
-- A packet that stays missing.
use interceptor.Common.{ℕ, List, [], ◌∷◌}

abbrev ticks : List (List ℕ)
ticks = (5 ∷ 7 ∷ []) ∷ (7 ∷ []) ∷ (6 ∷ 7 ∷ []) ∷ []
