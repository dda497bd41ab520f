-- ===== src/Video/LayerInfo.antt =====
-- `layerInfo` of pkg/videoframe/vp8_ref_finder.go: for each TL0PICIDX the last picture of each
-- temporal layer, and the references that `getReferences` reads from it. The Go map is an association
-- list with one entry for a key.
use interceptor.Common.{
  ℕ, zero, suc, Option, none, some, List, [], ◌∷◌, if◌then◌else◌, get_or, set, replicate,
}
use interceptor.Common.Int.{ℤ, pos, negsuc, ◌+ℤ◌, ◌-ℤ◌, ltb_ℤ, eqb_ℤ, pos_part}

-- maxTemporalLayers
abbrev pub max_temporal_layers : ℕ
max_temporal_layers = 4

-- `[maxTemporalLayers]int64`: the picture id + 1 of each layer, 0 where none is set
abbrev pub Layers : Type 0
Layers = List ℤ

abbrev pub no_layers : Layers
no_layers = replicate max_temporal_layers (pos 0)

abbrev pub LayerInfo : Type 0
LayerInfo = List (ℤ × Layers)

unfoldable pub find_layers : LayerInfo → ℤ → Option Layers
find_layers [] tl0 = none
find_layers ((k, l) ∷ m) tl0 = if eqb_ℤ k tl0 then some l else find_layers m tl0

unfoldable pub put_layers : LayerInfo → ℤ → Layers → LayerInfo
put_layers [] tl0 l = (tl0, l) ∷ []
put_layers ((k, l') ∷ m) tl0 l =
    let rest = put_layers m tl0 l in if eqb_ℤ k tl0 then (k, l) ∷ m else (k, l') ∷ rest

-- `info[tid] = v`; Go stops at an index out of range, which no tid of a packet is
abbrev pub set_layer : Layers → ℤ → ℤ → Layers
set_layer l (pos t) v = set l t v
set_layer l (negsuc t) v = l

-- the reference to what one layer holds
abbrev pub layer_ref : ℤ → List ℤ
layer_ref v = if eqb_ℤ v (pos 0) then [] else (v -ℤ pos 1) ∷ []

-- the loops `for t := n - 1; t >= 0; t--`: the first layer below `n` that is set
unfoldable pub highest : ℕ → Layers → List ℤ
highest zero l = []
highest (suc n) l =
    let rest = highest n l in
    if eqb_ℤ (get_or l n (pos 0)) (pos 0) then rest else (get_or l n (pos 0) -ℤ pos 1) ∷ []

-- the loop over all known TL0PICIDXes, in the order that the map is ranged over
unfoldable pub any_base : LayerInfo → List ℤ
any_base [] = []
any_base ((k, l) ∷ m) =
    let rest = any_base m in
    if eqb_ℤ (get_or l 0 (pos 0)) (pos 0) then rest else (get_or l 0 (pos 0) -ℤ pos 1) ∷ []

abbrev pub or_else : List ℤ → List ℤ → List ℤ
or_else [] ys = ys
or_else (x ∷ xs) ys = x ∷ xs

abbrev pub highest_of : ℕ → Option Layers → List ℤ
highest_of n none = []
highest_of n (some l) = highest n l

-- the branch of `getReferences` for an enhancement layer
unfoldable pub enhancement_refs : LayerInfo → LayerInfo → ℤ → ℤ → ℤ → List ℤ
enhancement_refs info ranged tl0 prev_tl0 tid =
    or_else (highest_of (pos_part tid) (find_layers info tl0))
      (or_else (highest_of (pos_part (tid +ℤ pos 1)) (find_layers info prev_tl0)) (any_base ranged))

-- the branch for the base layer
unfoldable pub base_refs : LayerInfo → ℤ → List ℤ
base_refs info prev_tl0 = elim (find_layers info prev_tl0) [
  | none ↦ []
  | some l ↦ layer_ref (get_or l 0 (pos 0))
]

-- `getReferences`, where the empty list is `nil, false`; `ranged` is the map in the order of `range`
unfoldable pub get_references : LayerInfo → LayerInfo → ℤ → ℤ → ℤ → List ℤ
get_references info ranged tl0 prev_tl0 tid =
    if eqb_ℤ tid (pos 0)
    then base_refs info prev_tl0
    else enhancement_refs info ranged tl0 prev_tl0 tid

-- `initLayerInfo`
unfoldable pub init_layer_info : LayerInfo → ℤ → ℤ → LayerInfo
init_layer_info info tl0 pid = put_layers info tl0 (set no_layers 0 (pid +ℤ pos 1))

abbrev pub layers_or_none : Option Layers → Layers
layers_or_none none = no_layers
layers_or_none (some l) = l

-- `updateLayerInfo`; a missing entry reads as zeros
unfoldable pub update_layer_info : LayerInfo → ℤ → ℤ → ℤ → LayerInfo
update_layer_info info tl0 tid pid =
    put_layers info tl0 (set_layer (layers_or_none (find_layers info tl0)) tid (pid +ℤ pos 1))

-- the deletion of old entries in `clearOldState`, of more than `maxTL0History` behind
unfoldable pub clear_old_layers : LayerInfo → ℤ → LayerInfo
clear_old_layers [] current = []
clear_old_layers ((k, l) ∷ m) current =
    let rest = clear_old_layers m current in
    if ltb_ℤ (pos 10) (current -ℤ k) then rest else (k, l) ∷ rest
