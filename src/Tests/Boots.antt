-- ===== src/Tests/Boots.antt =====
-- The scan of a small program, and its replay from the patches that the scan recorded.
use machgate.Base.{◌≡◌, refl, arith, [], ◌∷◌, List, some, true, none}
use machgate.Cache.Format.{CachePatch}
use machgate.Boot.Rewrite.{
  Segment, Rewrites, rewrite_main, scan_word, rewrite_words, downgrade_rcpc, rewrite_tpidrro_read,
  record_text_patch,
}
use machgate.Boot.Rewrite.Words.{Downgraded, scan_word-Downgraded}
use machgate.Boot.Rewrite.Sections.{SameProgram, replay_main}

-- An LDAPR of x0 from [x1], a NOP, a read of TPIDRRO_EL0 into x3 and an LDADDAL.
abbrev program : List Segment
program =
    record {
      is_text = true;
      vmaddr = 0x100000000;
      maxprot = 5;
      sections =
          record {
            addr = 0x100001000;
            flags = 0x80000400;
            words = 0xF8BFC020 ∷ 0xD503201F ∷ 0xD53BD063 ∷ 0xF8E10002 ∷ [];
          }
          ∷ [];
    }
    ∷ []

abbrev recorded : List CachePatch
recorded =
    record { text_offset = 0x1000; instruction = 0xC8DFFC20; kind = 1 }
    ∷ record { text_offset = 0x1008; instruction = 0xD53BD043; kind = 2 }
    ∷ []

scan_recorded :
    (rewrite_main [] 0 0x40001000 (some 0x40000800) program).rewrites.recorded ≡ some recorded
unfolding rewrite_main rewrite_words downgrade_rcpc rewrite_tpidrro_read record_text_patch
scan_recorded = refl

replay_main_example :
    SameProgram
      (rewrite_main recorded 0 0x40001000 (some 0x40000800) program)
      (rewrite_main [] 0 0x40001000 (some 0x40000800) program)
unfolding rewrite_main
replay_main_example =
    replay_main 0x40001000 (some 0x40000800) program recorded (omega arith, omega arith, tt)
      (omega arith) scan_recorded (omega arith)

abbrev before_scan : Rewrites
before_scan = record { replay = []; recorded = none; rcpc_fixed = 0; tpidr_fixed = 0 }

scan_word-Downgraded_example :
    Downgraded 0x1000 0xF8BFC020 before_scan (scan_word 0x1000 0xF8BFC020 before_scan)
scan_word-Downgraded_example = scan_word-Downgraded 0x1000 0xF8BFC020 before_scan (omega arith)
