-- ===== src/Log/Tests.antt =====
-- `dump` of src/log.c on a few bytes.
use linfo1341_project.Common.{◌≡◌, refl, [], ◌∷◌, ◌++◌, some, replicate, arith, Returns}
use linfo1341_project.Segment.Samples.{greeting}
use linfo1341_project.Log.{Row, dump, IsDump}
use linfo1341_project.Log.Dump.{dump_lem}

dump_two_lines :
    dump (replicate 18 0x61) 17
    ≡ some (
        record { offset = 0; hex = replicate 16 0x61; chars = replicate 16 0x61 }
        ∷ record { offset = 16; hex = replicate 1 0x61; chars = replicate 1 0x61 }
        ∷ [])
unfolding dump linfo1341_project.Log.dump_loop linfo1341_project.Log.hex_loop
    linfo1341_project.Log.char_loop
dump_two_lines = refl

dump_lem_example : Returns (IsDump 0 greeting) (dump (greeting ++ greeting) 5)
dump_lem_example = dump_lem greeting greeting (omega arith)
