-- ===== src/FlexFec/Coverage.antt =====
-- pkg/flexfec/flexfec_coverage.go: which media packets each repair packet covers. `P` stands for the
-- media packets.
pub mod Grid
pub mod Covered
mod Tests
use interceptor.Common.{
  ℕ, zero, suc, ◌+◌, ◌-◌, ◌*◌, ◌/◌, ◌%◌, ◌^◌, Bool, true, false, ◌&&◌, ◌||◌, Option, none, some,
  List, [], ◌∷◌, ltb, leb, ◌==◌, if◌then◌else◌, length, get_or, set, replicate,
}
use interceptor.FlexFec.BitArray.{BitArray, empty, set_bit_at, get_bit_at}
use Prim.Native.Nat.{bit_or}

abbrev pub max_media_packets : ℕ
max_media_packets = 110

abbrev pub max_fec_packets : ℕ
max_fec_packets = 110

pub record ProtectionCoverage (P : Type 0) : Type 0 where
  pub packet_masks : List BitArray
  pub num_fec_packets : ℕ
  pub num_media_packets : ℕ
  pub media_packets : List P

-- The loop over the media packets that one repair packet covers, every `n`-th one from `j` on, of
-- `k` rounds at most. The index is a uint32.
unfoldable pub cover : ℕ → ℕ → ℕ → ℕ → BitArray → BitArray
unfolding set_bit_at
cover zero j n m b = b
cover (suc k) j n m b =
    let rest = cover k ((j + n) % 4294967296) n m (set_bit_at b j) in if ltb j m then rest else b

abbrev pub mask_at : List BitArray → ℕ → BitArray
mask_at masks i = get_or masks i empty

-- The loop over the repair packets with `k` rounds left, at `i`.
unfoldable pub cover_all : ℕ → ℕ → ℕ → ℕ → List BitArray → List BitArray
unfolding cover
cover_all zero i n m masks = masks
cover_all (suc k) i n m masks =
    cover_all k (i + 1) n m (set masks i (cover m i n m (mask_at masks i)))

-- `resetCoverage`
abbrev pub reset : List BitArray
reset = replicate max_fec_packets empty

-- the loop of `GetCoveredBy` with `k` rounds left, at `j`: the indices of the packets
unfoldable pub covered_from : BitArray → ℕ → ℕ → List ℕ
unfolding get_bit_at
covered_from b zero j = []
covered_from b (suc k) j =
    let rest = covered_from b k (j + 1) in if get_bit_at b j then j ∷ rest else rest

module _ {P : Type 0} where
  -- a number of media packets that can be covered
  abbrev pub fits : List P → Bool
  fits media = ltb 0 (length media) && leb (length media) max_media_packets

  unfoldable pub update_coverage : ProtectionCoverage P → List P → ℕ → ProtectionCoverage P
  unfolding cover_all
  update_coverage p media n =
      if fits media
      then (if n == p.num_fec_packets && length media == p.num_media_packets
          then record p { media_packets = media }
          else record {
            packet_masks = cover_all n 0 n (length media) reset;
            num_fec_packets = n;
            num_media_packets = length media;
            media_packets = media;
          })
      else p

  -- `NewCoverage`
  unfoldable pub new_coverage : List P → ℕ → Option (ProtectionCoverage P)
  unfolding update_coverage
  new_coverage media n =
      if fits media
      then some (
          update_coverage
            (record {
              packet_masks = reset;
              num_fec_packets = 0;
              num_media_packets = 0;
              media_packets = [];
            })
            media n)
      else none

  -- `GetCoveredBy`, as the indices of the packets; `none` is a read past the end of the masks
  unfoldable pub get_covered_by : ProtectionCoverage P → ℕ → Option (List ℕ)
  unfolding covered_from
  get_covered_by p i =
      if leb max_fec_packets i && ltb 0 p.num_media_packets
      then none
      else some (covered_from (mask_at p.packet_masks i) p.num_media_packets 0)

-- The masks of the header: 15, 31 and 63 bits.
unfoldable pub extract_mask_1 : BitArray → ℕ
extract_mask_1 b = b.lo / 2 ^ 49 % 65536

unfoldable pub extract_mask_2 : BitArray → ℕ
extract_mask_2 b = b.lo * 2 ^ 15 % 2 ^ 64 / 2 ^ 33 % 2 ^ 32

unfoldable pub extract_mask_3 : BitArray → ℕ
extract_mask_3 b = bit_or (b.lo * 2 ^ 46 % 2 ^ 64) (b.hi / 2 ^ 18)

unfoldable pub extract_mask_3_03 : BitArray → ℕ
unfolding extract_mask_3
extract_mask_3_03 b = extract_mask_3 b / 2
