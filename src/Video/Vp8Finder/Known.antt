-- ===== src/Video/Vp8Finder/Known.antt =====
-- The layer table names only pictures of frames that have been handed on, so what `getReferences`
-- reads from it is such a picture.
use mathlib.Core.List.{Mem, mem-cons_of_mem}
use interceptor.Common.{
  ℕ, zero, suc, ◌≡◌, refl, sym, ◌⊎◌, inl, inr, Bool, true, false, Option, none, some, List, [], ◌∷◌,
  arith, if◌then◌else◌, Bool-cases, get_or, All, All-get_or, All-set, All-map, subst,
}
use interceptor.Common.Int.{ℤ, pos, negsuc, ◌+ℤ◌, ◌-ℤ◌, ltb_ℤ, eqb_ℤ}
use interceptor.Video.LayerInfo.{
  LayerInfo, Layers, no_layers, find_layers, put_layers, set_layer, layer_ref, highest, highest_of,
  any_base, or_else, enhancement_refs, base_refs, get_references, init_layer_info, layers_or_none,
  update_layer_info, clear_old_layers,
}

-- Not set, or one more than the id of a frame handed on.
abbrev pub KnownEntry : List ℤ → ℤ → Type 0
KnownEntry seen v = (v ≡ pos 0) ⊎ Mem (v -ℤ pos 1) seen

abbrev pub Known : List ℤ → LayerInfo → Type 0
Known seen = All (λ e. All (KnownEntry seen) e.1)

-- One reference at most, and that to a frame handed on.
abbrev pub KnownRefs : List ℤ → List ℤ → Type 0
KnownRefs seen [] = Unit
KnownRefs seen (r ∷ []) = Mem r seen
KnownRefs seen (r ∷ s ∷ refs) = ⊥

module _ (seen : List ℤ) where
  known_entry : (v : ℤ) → KnownEntry seen v → eqb_ℤ v (pos 0) ≡ false → Mem (v -ℤ pos 1) seen
  known_entry v (inl e) h = absurd (ground arith)
  known_entry v (inr m) h = m

  layer_ref-KnownRefs : (v : ℤ) → KnownEntry seen v → KnownRefs seen (layer_ref v)
  layer_ref-KnownRefs v k = elim (Bool-cases (eqb_ℤ v (pos 0))) [
    | inl e ↦ rw (e, KnownRefs) tt
    | inr e ↦ rw (e, KnownRefs) (known_entry v k e)
  ]

  known_layer :
      (l : Layers) (t : ℕ) → All (KnownEntry seen) l → KnownEntry seen (get_or l t (pos 0))
  known_layer l t a = All-get_or (KnownEntry seen) l t (pos 0) (inl refl) a

  highest-KnownRefs : (n : ℕ) (l : Layers) → All (KnownEntry seen) l → KnownRefs seen (highest n l)
  unfolding highest
  highest-KnownRefs zero l a = tt
  highest-KnownRefs (suc n) l a = elim (Bool-cases (eqb_ℤ (get_or l n (pos 0)) (pos 0))) [
    | inl e ↦ rw (e, KnownRefs) (highest-KnownRefs n l a)
    | inr e ↦ rw (e, KnownRefs) (known_entry _ (known_layer l n a) e)
  ]

  any_base-KnownRefs : (m : LayerInfo) → Known seen m → KnownRefs seen (any_base m)
  unfolding any_base
  any_base-KnownRefs [] a = tt
  any_base-KnownRefs ((k, l) ∷ m) a = elim (Bool-cases (eqb_ℤ (get_or l 0 (pos 0)) (pos 0))) [
    | inl e ↦ rw (e, KnownRefs) (any_base-KnownRefs m a.1)
    | inr e ↦ rw (e, KnownRefs) (known_entry _ (known_layer l 0 a.0) e)
  ]

  or_else-KnownRefs :
      (xs ys : List ℤ) → KnownRefs seen xs → KnownRefs seen ys → KnownRefs seen (or_else xs ys)
  or_else-KnownRefs [] ys p q = q
  or_else-KnownRefs (x ∷ xs) ys p q = p

  KnownLayers : Option Layers → Type 0
  KnownLayers none = Unit
  KnownLayers (some l) = All (KnownEntry seen) l

  find_layers-Known : (m : LayerInfo) (tl0 : ℤ) → Known seen m → KnownLayers (find_layers m tl0)
  unfolding find_layers KnownLayers
  find_layers-Known [] tl0 a = tt
  find_layers-Known ((k, l) ∷ m) tl0 a = elim (Bool-cases (eqb_ℤ k tl0)) [
    | inl e ↦ rw (e, KnownLayers) a.0
    | inr e ↦ rw (e, KnownLayers) (find_layers-Known m tl0 a.1)
  ]

  highest_of-KnownRefs :
      (n : ℕ) (o : Option Layers) → KnownLayers o → KnownRefs seen (highest_of n o)
  unfolding KnownLayers
  highest_of-KnownRefs n none a = tt
  highest_of-KnownRefs n (some l) a = highest-KnownRefs n l a

  base_refs-KnownRefs : (m : LayerInfo) (tl0 : ℤ) → Known seen m → KnownRefs seen (base_refs m tl0)
  unfolding base_refs KnownLayers
  base_refs-KnownRefs m tl0 a = by_layers (find_layers m tl0) (find_layers-Known m tl0 a)
    where
      by_layers :
          (o : Option Layers)
          → KnownLayers o
          → KnownRefs seen
              (elim o as (λ _. List ℤ) [ none ↦ [] | some l ↦ layer_ref (get_or l 0 (pos 0)) ])
      by_layers none k = tt
      by_layers (some l) k = layer_ref-KnownRefs _ (known_layer l 0 k)

  -- `getReferences` finds one frame at most, and one that has been handed on, whatever the order in
  -- which the map is ranged over.
  pub get_references-KnownRefs :
      (info ranged : LayerInfo) (tl0 prev tid : ℤ)
      → Known seen info
      → Known seen ranged
      → KnownRefs seen (get_references info ranged tl0 prev tid)
  unfolding get_references enhancement_refs
  get_references-KnownRefs info ranged tl0 prev tid a b = by_tid (eqb_ℤ tid (pos 0))
    where
      by_tid :
          (t : Bool)
          → KnownRefs seen
              (if t then base_refs info prev else enhancement_refs info ranged tl0 prev tid)
      by_tid true = base_refs-KnownRefs info prev a
      by_tid false =
          or_else-KnownRefs _ _ (highest_of-KnownRefs _ _ (find_layers-Known info tl0 a)) (
            or_else-KnownRefs _ _ (highest_of-KnownRefs _ _ (find_layers-Known info prev a))
              (any_base-KnownRefs ranged b))

  put_layers-Known :
      (m : LayerInfo) (tl0 : ℤ) (l : Layers)
      → All (KnownEntry seen) l
      → Known seen m
      → Known seen (put_layers m tl0 l)
  unfolding put_layers
  put_layers-Known [] tl0 l h a = (h, tt)
  put_layers-Known ((k, l') ∷ m) tl0 l h a = elim (Bool-cases (eqb_ℤ k tl0)) [
    | inl e ↦ rw (e, All) (h, a.1)
    | inr e ↦ rw (e, All) (a.0, put_layers-Known m tl0 l h a.1)
  ]

  no_layers-Known : All (KnownEntry seen) no_layers
  no_layers-Known = (inl refl, (inl refl, (inl refl, (inl refl, tt))))

  back : (i : ℤ) → i +ℤ pos 1 -ℤ pos 1 ≡ i
  unfolding ◌+ℤ◌ ◌-ℤ◌
  back i = ground arith

  known_id : (pid : ℤ) → Mem pid seen → KnownEntry seen (pid +ℤ pos 1)
  known_id pid m = inr (subst (λ i. Mem i seen) (sym (back pid)) m)

  set_layer-Known :
      (l : Layers) (tid v : ℤ)
      → KnownEntry seen v
      → All (KnownEntry seen) l
      → All (KnownEntry seen) (set_layer l tid v)
  set_layer-Known l (pos t) v k a = All-set (KnownEntry seen) l t v k a
  set_layer-Known l (negsuc t) v k a = a

  layers_or_none-Known :
      (o : Option Layers) → KnownLayers o → All (KnownEntry seen) (layers_or_none o)
  unfolding KnownLayers
  layers_or_none-Known none a = no_layers-Known
  layers_or_none-Known (some l) a = a

  pub init_layer_info-Known :
      (m : LayerInfo) (tl0 pid : ℤ)
      → Mem pid seen
      → Known seen m
      → Known seen (init_layer_info m tl0 pid)
  unfolding init_layer_info
  init_layer_info-Known m tl0 pid h a =
      put_layers-Known m tl0 _
        (All-set (KnownEntry seen) no_layers 0 _ (known_id pid h) no_layers-Known) a

  pub update_layer_info-Known :
      (m : LayerInfo) (tl0 tid pid : ℤ)
      → Mem pid seen
      → Known seen m
      → Known seen (update_layer_info m tl0 tid pid)
  unfolding update_layer_info
  update_layer_info-Known m tl0 tid pid h a =
      put_layers-Known m tl0 _
        (set_layer-Known _ tid _ (known_id pid h)
          (layers_or_none-Known (find_layers m tl0) (find_layers-Known m tl0 a)))
        a

  pub clear_old_layers-Known :
      (m : LayerInfo) (current : ℤ) → Known seen m → Known seen (clear_old_layers m current)
  unfolding clear_old_layers
  clear_old_layers-Known [] current a = tt
  clear_old_layers-Known ((k, l) ∷ m) current a =
      elim (Bool-cases (ltb_ℤ (pos 10) (current -ℤ k))) [
        | inl e ↦ rw (e, All) (clear_old_layers-Known m current a.1)
        | inr e ↦ rw (e, All) (a.0, clear_old_layers-Known m current a.1)
      ]

-- Handing on one more frame.
pub Known-more : (seen : List ℤ) (i : ℤ) (m : LayerInfo) → Known seen m → Known (i ∷ seen) m
Known-more seen i m a =
    All-map (λ e. All (KnownEntry seen) e.1) (λ e. All (KnownEntry (i ∷ seen)) e.1) m
      (λ e b. All-map (KnownEntry seen) (KnownEntry (i ∷ seen)) e.1 more b) a
  where
    more : (v : ℤ) → KnownEntry seen v → KnownEntry (i ∷ seen) v
    more v (inl e) = inl e
    more v (inr k) = inr (mem-cons_of_mem i k)
