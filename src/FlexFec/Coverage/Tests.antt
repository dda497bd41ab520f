-- ===== src/FlexFec/Coverage/Tests.antt =====
-- Two repair packets over five media packets.
use interceptor.Common.{ℕ, ◌≡◌, refl, some, List, [], ◌∷◌, length, arith}
use interceptor.FlexFec.Coverage.{ProtectionCoverage, reset, update_coverage, get_covered_by}
use interceptor.FlexFec.Coverage.Covered.{IsCoverage, interleaved, update_coverage-interleaved}

abbrev blank : ProtectionCoverage ℕ
blank = record {
  packet_masks = reset;
  num_fec_packets = 0;
  num_media_packets = 0;
  media_packets = [];
}

abbrev five : List ℕ
five = 10 ∷ 11 ∷ 12 ∷ 13 ∷ 14 ∷ []

update_coverage-interleaved_example :
    IsCoverage (update_coverage blank five 2)
    × (get_covered_by (update_coverage blank five 2) 1 ≡ some (interleaved 2 1 (length five) 0))
update_coverage-interleaved_example =
    update_coverage-interleaved blank five 2 1 (omega arith) (λ i x h l. absurd (omega arith)) refl
      (omega arith) (omega arith)
