-- ===== src/Video/Receiver/Finders.antt =====
-- Each finder of a stream sees the frames of its own kind only.
use interceptor.Common.Int.{negsuc, eqb_ℤ}
use interceptor.Common.{
  ◌≡◌, refl, sym, subst, Bool, true, false, ◌&&◌, ◌||◌, not, if◌then◌else◌, Option, none, some,
  List, [], ◌∷◌, ◌++◌,
}
use mathlib.Core.List.{Perm, append_assoc, perm_append_comm}
use mathlib.Core.List.Perm
use interceptor.Video.Header.{VideoHeader}
use interceptor.Video.Frame.{EncodedFrame}
use interceptor.Video.PacketBuffer.{BufferedPacket}
use interceptor.Video.Assembler.{Assembler, assemble_frame}
use interceptor.Video.LayerInfo.{LayerInfo}
use interceptor.Video.SeqNumFinder
use interceptor.Video.FrameIdFinder
use interceptor.Video.Vp8Finder
use interceptor.Video.Receiver.{
  StreamState, RefFinderType, seq_num_only, frame_id_only, vp8, select_ref_finder_type,
  first_header, or_new, manage_with, resolve_frame, resolve_frames,
}

abbrev Input : Type 0
Input = EncodedFrame × Option VideoHeader

-- put a frame before the others if it is of the kind `t`
abbrev keep :
    RefFinderType
    → RefFinderType
    → Option EncodedFrame
    → Option VideoHeader
    → List Input
    → List Input
keep seq_num_only seq_num_only (some frame) header rest = (frame, header) ∷ rest
keep frame_id_only frame_id_only (some frame) header rest = (frame, header) ∷ rest
keep vp8 vp8 (some frame) header rest = (frame, header) ∷ rest
keep _ _ _ header rest = rest

-- the finder for a header, by what it has: without a picture id by sequence number, with a picture id
-- alone by it, and with a temporal layer and a base layer counter besides by these
abbrev kind : Option VideoHeader → RefFinderType
kind none = seq_num_only
kind (some h) =
    if eqb_ℤ h.picture_id (negsuc 0)
    then seq_num_only
    else if eqb_ℤ h.temporal_idx (negsuc 0) || eqb_ℤ h.tl0_pic_idx (negsuc 0)
    then frame_id_only
    else vp8

select_ref_finder_type-kind :
    (header : Option VideoHeader) → select_ref_finder_type header ≡ kind header
unfolding select_ref_finder_type
select_ref_finder_type-kind none = refl
select_ref_finder_type-kind (some h) =
    boolean (eqb_ℤ h.picture_id (negsuc 0)) (eqb_ℤ h.temporal_idx (negsuc 0))
      (eqb_ℤ h.tl0_pic_idx (negsuc 0))
  where
    boolean :
        (a b c : Bool)
        → (if not b && not c && not a then vp8 else if not a then frame_id_only else seq_num_only)
          ≡ (if a then seq_num_only else if b || c then frame_id_only else vp8)
    boolean true true true = refl
    boolean true true false = refl
    boolean true false true = refl
    boolean true false false = refl
    boolean false true true = refl
    boolean false true false = refl
    boolean false false true = refl
    boolean false false false = refl

-- the assembled frames of one kind, with their headers
pub of_type : RefFinderType → Assembler → List (List BufferedPacket) → List Input
of_type t a [] = []
of_type t a (ps ∷ pss) =
    let (frame, a') = assemble_frame a ps in
    let rest = of_type t a' pss in keep t (kind (first_header ps)) frame (first_header ps) rest

-- the state of a finder after a run of calls
abbrev run {ℓ} : {S : Type ℓ} → (S → Input → S) → S → List Input → S
run step f [] = f
run step f (i ∷ inputs) = run step (step f i) inputs

-- the frames that a run of calls hands on
abbrev handed_on {ℓ} :
    {S : Type ℓ} → (S → Input → List EncodedFrame × S) → S → List Input → List EncodedFrame
handed_on call f [] = []
handed_on call f (i ∷ inputs) = (call f i).0 ++ handed_on call (call f i).1 inputs

shuffle : {A : Type 0} (xs ys zs : List A) → Perm (xs ++ (ys ++ zs)) (ys ++ (xs ++ zs))
shuffle xs ys zs =
    subst (λ l. Perm l (ys ++ (xs ++ zs))) (append_assoc xs ys zs)
      (subst (λ l. Perm ((xs ++ ys) ++ zs) l) (append_assoc ys xs zs)
        (Perm.append_right zs (perm_append_comm xs ys)))

module _ {A : Type 0} (xs us vs ws out : List A) (p : Perm out (us ++ (vs ++ ws))) where
  to_first : Perm (xs ++ out) ((xs ++ us) ++ (vs ++ ws))
  to_first =
      subst (λ l. Perm (xs ++ out) l) (sym (append_assoc xs us (vs ++ ws))) (Perm.append_left xs p)

  to_second : Perm (xs ++ out) (us ++ ((xs ++ vs) ++ ws))
  to_second =
      subst (λ l. Perm (xs ++ out) (us ++ l)) (sym (append_assoc xs vs ws))
        (Perm.trans (Perm.append_left xs p) (shuffle xs us (vs ++ ws)))

  to_third : Perm (xs ++ out) (us ++ (vs ++ (xs ++ ws)))
  to_third =
      Perm.trans (Perm.append_left xs p)
        (Perm.trans (shuffle xs us (vs ++ ws)) (Perm.append_left us (shuffle xs vs ws)))

module _ (order : LayerInfo → LayerInfo) where
  abbrev vp8_call : Vp8Finder.Vp8Finder → Input → List EncodedFrame × Vp8Finder.Vp8Finder
  vp8_call f i = Vp8Finder.manage_frame order f (some i.0) i.1

  abbrev id_call :
      FrameIdFinder.FrameIdFinder → Input → List EncodedFrame × FrameIdFinder.FrameIdFinder
  id_call f i = FrameIdFinder.manage_frame f (some i.0) i.1

  abbrev seq_call :
      SeqNumFinder.SeqNumFinder → Input → List EncodedFrame × SeqNumFinder.SeqNumFinder
  seq_call f i = SeqNumFinder.manage_frame f (some i.0) i.1

  abbrev vp8_step : Vp8Finder.Vp8Finder → Input → Vp8Finder.Vp8Finder
  vp8_step f i = (vp8_call f i).1

  abbrev id_step : FrameIdFinder.FrameIdFinder → Input → FrameIdFinder.FrameIdFinder
  id_step f i = (id_call f i).1

  abbrev seq_step : SeqNumFinder.SeqNumFinder → Input → SeqNumFinder.SeqNumFinder
  seq_step f i = (seq_call f i).1

  abbrev vp8_out : StreamState → List Input → List EncodedFrame
  vp8_out st inputs = handed_on vp8_call (or_new Vp8Finder.new st.vp8_ref_finder) inputs

  abbrev id_out : StreamState → List Input → List EncodedFrame
  id_out st inputs = handed_on id_call (or_new FrameIdFinder.new st.frame_id_only_ref_finder) inputs

  abbrev seq_out : StreamState → List Input → List EncodedFrame
  seq_out st inputs = handed_on seq_call (or_new SeqNumFinder.new st.seq_num_only_ref_finder) inputs

  -- The finders of one state after the inputs of the three kinds are those of another.
  pub record Ran (st : StreamState) (vs is ss : List Input) (out : List EncodedFrame)
      (st' : StreamState) : Type 0 where
    pub vp8_frames :
        or_new Vp8Finder.new st'.vp8_ref_finder
        ≡ run vp8_step (or_new Vp8Finder.new st.vp8_ref_finder) vs
    pub id_frames :
        or_new FrameIdFinder.new st'.frame_id_only_ref_finder
        ≡ run id_step (or_new FrameIdFinder.new st.frame_id_only_ref_finder) is
    pub seq_frames :
        or_new SeqNumFinder.new st'.seq_num_only_ref_finder
        ≡ run seq_step (or_new SeqNumFinder.new st.seq_num_only_ref_finder) ss
    pub out_frames : Perm out (vp8_out st vs ++ (id_out st is ++ seq_out st ss))

  resolve_frame-Ran :
      (t : RefFinderType) (st : StreamState) (o : Option EncodedFrame) (header : Option VideoHeader)
      (vs is ss : List Input) (out : List EncodedFrame) (st' : StreamState)
      → Ran (resolve_frame order t st o header).1 vs is ss out st'
      → Ran st
          (keep vp8 t o header vs)
          (keep frame_id_only t o header is)
          (keep seq_num_only t o header ss)
          ((resolve_frame order t st o header).0 ++ out)
          st'
  unfolding manage_with
  resolve_frame-Ran vp8 st none header vs is ss out st' r = r
  resolve_frame-Ran frame_id_only st none header vs is ss out st' r = r
  resolve_frame-Ran seq_num_only st none header vs is ss out st' r = r
  resolve_frame-Ran vp8 st (some frame) header vs is ss out st' r = record {
    vp8_frames = r.vp8_frames;
    id_frames = r.id_frames;
    seq_frames = r.seq_frames;
    out_frames =
        let st1 = (resolve_frame order vp8 st (some frame) header).1 in
        to_first _ (vp8_out st1 vs) (id_out st1 is) (seq_out st1 ss) out r.out_frames;
  }
  resolve_frame-Ran frame_id_only st (some frame) header vs is ss out st' r = record {
    vp8_frames = r.vp8_frames;
    id_frames = r.id_frames;
    seq_frames = r.seq_frames;
    out_frames =
        let st1 = (resolve_frame order frame_id_only st (some frame) header).1 in
        to_second _ (vp8_out st1 vs) (id_out st1 is) (seq_out st1 ss) out r.out_frames;
  }
  resolve_frame-Ran seq_num_only st (some frame) header vs is ss out st' r = record {
    vp8_frames = r.vp8_frames;
    id_frames = r.id_frames;
    seq_frames = r.seq_frames;
    out_frames =
        let st1 = (resolve_frame order seq_num_only st (some frame) header).1 in
        to_third _ (vp8_out st1 vs) (id_out st1 is) (seq_out st1 ss) out r.out_frames;
  }

  resolve_frame-assembler :
      (t : RefFinderType) (st : StreamState) (o : Option EncodedFrame) (header : Option VideoHeader)
      → (resolve_frame order t st o header).1.frame_assembler ≡ st.frame_assembler
  unfolding manage_with
  resolve_frame-assembler t st none header = refl
  resolve_frame-assembler vp8 st (some frame) header = refl
  resolve_frame-assembler frame_id_only st (some frame) header = refl
  resolve_frame-assembler seq_num_only st (some frame) header = refl

  -- the inputs of the three kinds that come from the frames of the packet buffer
  abbrev pub RanApart :
      Assembler
      → StreamState
      → List (List BufferedPacket)
      → List EncodedFrame × StreamState
      → Type 0
  RanApart a st pss r =
      Ran st (of_type vp8 a pss) (of_type frame_id_only a pss) (of_type seq_num_only a pss) r.0 r.1

  -- The loop over the frames that the packet buffer hands out leaves each of the three reference
  -- finders of the stream in the state that it has after the frames of its own kind alone, in their
  -- order: a finder that is not made yet is as good as a new one, and frames of the other kinds do
  -- not change it. The frames handed on are those that the three finders hand on then, in some order.
  pub resolve_frames-RanApart :
      (pss : List (List BufferedPacket)) (st : StreamState)
      → RanApart st.frame_assembler st pss (resolve_frames order st pss)
  unfolding resolve_frames of_type
  resolve_frames-RanApart [] st = record {
    vp8_frames = refl;
    id_frames = refl;
    seq_frames = refl;
    out_frames = Perm.refl _;
  }
  resolve_frames-RanApart (ps ∷ pss) st =
      let header = first_header ps in
      let t = select_ref_finder_type header in
      let (o, a) = assemble_frame st.frame_assembler ps in
      let st1 = record st { frame_assembler = a } in
      let st2 = (resolve_frame order t st1 o header).1 in
      let later = resolve_frames order st2 pss in
      let ih =
        subst (λ b. RanApart b st2 pss later) (resolve_frame-assembler t st1 o header)
          (resolve_frames-RanApart pss st2) in
      let r = resolve_frame-Ran t st1 o header _ _ _ later.0 later.1 ih in
      let apart : RefFinderType → Type 0 = λ k.
        Ran st (keep vp8 k o header (of_type vp8 a pss))
          (keep frame_id_only k o header (of_type frame_id_only a pss))
          (keep seq_num_only k o header (of_type seq_num_only a pss))
          ((resolve_frame order t st1 o header).0 ++ later.0) later.1 in
      subst apart (select_ref_finder_type-kind header) (record {
        vp8_frames = r.vp8_frames;
        id_frames = r.id_frames;
        seq_frames = r.seq_frames;
        out_frames = r.out_frames;
      })
