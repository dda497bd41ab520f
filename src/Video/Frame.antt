-- ===== src/Video/Frame.antt =====
-- `EncodedFrame` of pkg/videoframe/frame_assembler.go. A frame is a value: the code passes it on by
-- pointer, and each finder writes to it before handing it on.
use interceptor.Common.{ℕ, zero, suc, List, [], ◌∷◌, length}
use interceptor.Common.Int.{ℤ, pos}
use interceptor.Video.Header.{FrameType}

-- `[5]int64`
pub record References : Type 0 where
  pub r0 : ℤ
  pub r1 : ℤ
  pub r2 : ℤ
  pub r3 : ℤ
  pub r4 : ℤ

pub record EncodedFrame : Type 0 where
  pub id : ℤ
  pub first_seq_num : ℕ
  pub last_seq_num : ℕ
  pub first_seq_num_unwrapped : ℤ
  pub last_seq_num_unwrapped : ℤ
  pub timestamp : ℕ
  pub frame_type : FrameType
  pub contents : List ℕ
  pub width : ℕ
  pub height : ℕ
  pub num_references : ℕ
  pub references : References

-- the zero value
abbrev pub no_references : References
no_references = record { r0 = pos 0; r1 = pos 0; r2 = pos 0; r3 = pos 0; r4 = pos 0 }

-- `frame.NumReferences = 1` and `frame.References[0] = r`
abbrev pub refer_to : EncodedFrame → ℤ → EncodedFrame
refer_to f r = record f { num_references = 1; references = record (f.references) { r0 = r } }

-- `References[i] = r`, where i is below 5
abbrev pub put_reference : References → ℕ → ℤ → References
put_reference rs zero r = record rs { r0 = r }
put_reference rs (suc zero) r = record rs { r1 = r }
put_reference rs (suc (suc zero)) r = record rs { r2 = r }
put_reference rs (suc (suc (suc zero))) r = record rs { r3 = r }
put_reference rs (suc (suc (suc (suc zero)))) r = record rs { r4 = r }
put_reference rs (suc (suc (suc (suc (suc i))))) r = rs

abbrev pub put_references : References → ℕ → List ℤ → References
put_references rs i [] = rs
put_references rs i (r ∷ refs) = put_references (put_reference rs i r) (suc i) refs

-- `frame.NumReferences = len(refs)`, and the first five of them
abbrev pub with_references : EncodedFrame → List ℤ → EncodedFrame
with_references f refs = record f {
  num_references = length refs;
  references = put_references f.references 0 refs;
}
