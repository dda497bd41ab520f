-- ===== src/Video/Receiver/Streams.antt =====
-- The table of streams of pkg/videoframe/receiver_interceptor.go: a map from SSRC to a pointer to
-- the state, which the reader of the stream keeps even when the stream has left the table. A pointer
-- is an index into the list of the states made so far.
use interceptor.Common.{
  ℕ, ◌≡◌, ◌≢◌, refl, sym, ap, ◌∙◌, inl, inr, Bool, true, Option, none, some, List, [], ◌∷◌, ◌++◌,
  arith, ◌==◌, if◌then◌else◌, Option-cases, length,
}
use interceptor.Video.PacketBuffer
use interceptor.Video.Assembler
use interceptor.Video.Unwrap
use interceptor.Video.Receiver.{StreamState}

-- `ReceiverInterceptor`, and the states that have been made
pub record ReceiverInterceptor : Type 0 where
  pub streams : List (ℕ × ℕ)
  pub states : List StreamState
  pub packet_buffer_size : ℕ

unfoldable pub find_stream : List (ℕ × ℕ) → ℕ → Option ℕ
find_stream [] ssrc = none
find_stream ((k, h) ∷ m) ssrc = if k == ssrc then some h else find_stream m ssrc

unfoldable pub delete_stream : List (ℕ × ℕ) → ℕ → List (ℕ × ℕ)
delete_stream [] ssrc = []
delete_stream ((k, h) ∷ m) ssrc =
    let rest = delete_stream m ssrc in if k == ssrc then rest else (k, h) ∷ rest

abbrev pub fresh_state : PacketBuffer.PacketBuffer → StreamState
fresh_state b = record {
  packet_buffer = b;
  frame_assembler = Assembler.new;
  seq_unwrapper = Unwrap.new;
  seq_num_only_ref_finder = none;
  frame_id_only_ref_finder = none;
  vp8_ref_finder = none;
}

-- `getOrCreateStreamState`; `none` is the error of a size that is not allowed
unfoldable pub get_or_create_stream_state : ReceiverInterceptor → ℕ → Option ℕ × ReceiverInterceptor
get_or_create_stream_state r ssrc = elim (find_stream r.streams ssrc) [
  | some h ↦ (some h, r)
  | none ↦ elim (PacketBuffer.new r.packet_buffer_size) [
    | none ↦ (none, r)
    | some b ↦ (
      some (length r.states),
      record r {
        streams = (ssrc, length r.states) ∷ r.streams;
        states = r.states ++ (fresh_state b ∷ []);
      },
    )
  ]
]

-- `BindRemoteStream`, where `is_vp8` is the test of the stream's MIME type: `none` passes the reader
-- on as it is
unfoldable pub bind_remote_stream : Bool → ReceiverInterceptor → ℕ → Option ℕ × ReceiverInterceptor
bind_remote_stream is_vp8 r ssrc = if is_vp8 then get_or_create_stream_state r ssrc else (none, r)

-- `UnbindRemoteStream`
unfoldable pub unbind_remote_stream : ReceiverInterceptor → ℕ → ReceiverInterceptor
unbind_remote_stream r ssrc = record r { streams = delete_stream r.streams ssrc }

-- `Close`
unfoldable pub close : ReceiverInterceptor → ReceiverInterceptor
close r = record r { streams = [] }

find_stream-delete_self :
    (m : List (ℕ × ℕ)) (ssrc : ℕ) → find_stream (delete_stream m ssrc) ssrc ≡ none
unfolding find_stream delete_stream
find_stream-delete_self [] ssrc = refl
find_stream-delete_self ((k, h) ∷ m) ssrc = ground (arith, find_stream-delete_self m ssrc)

find_stream-delete_other :
    (m : List (ℕ × ℕ)) (ssrc other : ℕ)
    → other ≢ ssrc
    → find_stream (delete_stream m ssrc) other ≡ find_stream m other
unfolding find_stream delete_stream
find_stream-delete_other [] ssrc other n = refl
find_stream-delete_other ((k, h) ∷ m) ssrc other n =
    ground (arith, find_stream-delete_other m ssrc other n)

find_stream-cons :
    (m : List (ℕ × ℕ)) (ssrc h other : ℕ)
    → (find_stream ((ssrc, h) ∷ m) ssrc ≡ some h)
      × (other ≢ ssrc → find_stream ((ssrc, h) ∷ m) other ≡ find_stream m other)
unfolding find_stream
find_stream-cons m ssrc h other = (ground arith, λ n. ground arith)

-- What a bind of a VP8 stream does to the table.
record Bound (r : ReceiverInterceptor) (ssrc h : ℕ) (r' : ReceiverInterceptor) : Type 0 where
  entry : find_stream r'.streams ssrc ≡ some h
  others : (other : ℕ) → other ≢ ssrc → find_stream r'.streams other ≡ find_stream r.streams other

bind-Bound :
    (r : ReceiverInterceptor) (ssrc h : ℕ) (r' : ReceiverInterceptor)
    → bind_remote_stream true r ssrc ≡ (some h, r')
    → Bound r ssrc h r'
unfolding bind_remote_stream get_or_create_stream_state
bind-Bound r ssrc h r' e = elim (Option-cases (find_stream r.streams ssrc)) [
  | inr (k, d) ↦
      let p = rw (d, get_or_create_stream_state) at e in
      let q : k ≡ h = ground arith in
      let s : r ≡ r' = ap (λ x. x.1) p in
      record {
        entry = ap (λ x. find_stream x.streams ssrc) (sym s) ∙ d ∙ ap some q;
        others = λ o n. ap (λ x. find_stream x.streams o) (sym s);
      }
  | inl d ↦ elim (Option-cases (PacketBuffer.new r.packet_buffer_size)) [
    | inl c ↦ absurd (ground arith)
    | inr (b, c) ↦
        let p = rw (d, get_or_create_stream_state, c) at e in
        let q : length r.states ≡ h = ground arith in
        let s = ap (λ x. x.1.streams) p in
        record {
          entry =
              ap (λ x. find_stream x ssrc) (sym s)
              ∙ (find_stream-cons r.streams ssrc (length r.states) ssrc).0
              ∙ ap some q;
          others = λ o n.
              ap (λ x. find_stream x o) (sym s)
              ∙ (find_stream-cons r.streams ssrc (length r.states) o).1 n;
        }
  ]
]

-- When a VP8 stream has been bound to a state: a second bind gives the same state and changes
-- nothing, so the two readers share it; an unbind takes the stream from the table; and neither
-- changes what another stream is bound to.
pub bind_remote_stream_again :
    (r : ReceiverInterceptor) (ssrc other h : ℕ) (r' : ReceiverInterceptor)
    → other ≢ ssrc
    → bind_remote_stream true r ssrc ≡ (some h, r')
    → (bind_remote_stream true r' ssrc ≡ (some h, r'))
      × (find_stream (unbind_remote_stream r' ssrc).streams ssrc ≡ none)
      × (find_stream r'.streams other ≡ find_stream r.streams other)
      × (find_stream (unbind_remote_stream r' ssrc).streams other ≡ find_stream r.streams other)
unfolding bind_remote_stream unbind_remote_stream get_or_create_stream_state
bind_remote_stream_again r ssrc other h r' n e =
    let b = bind-Bound r ssrc h r' e in
    (
      rw (b.entry, get_or_create_stream_state) refl,
      find_stream-delete_self r'.streams ssrc,
      b.others other n,
      find_stream-delete_other r'.streams ssrc other n ∙ b.others other n,
    )
