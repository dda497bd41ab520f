-- ===== src/Video/Assembler/Tests.antt =====
use interceptor.Common.{◌≡◌, refl, [], ◌∷◌, true, false, arith, map}
use interceptor.Common.Int.{pos}
use interceptor.Video.PacketBuffer.{insert_packet}
use interceptor.Video.Assembler.{new, assemble_all, assemble_frame}
use interceptor.Video.Assembler.Laws.{AllAssembled, insert_packet-assemble_all}
use interceptor.Video.Samples.{packet, half_full}

payloads :
    map
      (λ f. f.contents)
      (assemble_all new ((packet (pos 9) 5 true false ∷ packet (pos 10) 5 false true ∷ []) ∷ [])).0
    ≡ (7 ∷ 7 ∷ []) ∷ []
unfolding assemble_all assemble_frame
payloads = refl

insert_packet-assemble_all_example :
    let pss = (insert_packet half_full (packet (pos 9) 5 true false)).0 in
    AllAssembled 0 pss (assemble_all new pss).0
insert_packet-assemble_all_example =
    insert_packet-assemble_all half_full (packet (pos 9) 5 true false) new (omega arith)
