-- ===== src/Log/Tests.antt =====
-- Two dumps of src/log.cpp.
use greensql_fw.Base.{[], ◌∷◌, none, ◌++◌, List, Bytes, some, codes, length, ◌≡◌, refl}
use greensql_fw.Log.{printline, text_loop, hex_loop, store, is_printable, hex_digit, blanks, loghex}
use greensql_fw.Base.Int.{pos}
use greensql_fw.Log.File.{LogState, LogCall, crit, log_all, IsOwned, log_all-IsOwned}
use greensql_fw.Log.Bounds.{loghex_lines}
use greensql_fw.Normalization.Loops.{skip_while}

test_printline : printline (codes "a\n") ≡ some (codes "a." ++ (blanks 16 ++ codes "| 61 0A \n"))
unfolding printline text_loop hex_loop store is_printable hex_digit skip_while
test_printline = refl

loghex_lines_example :
    (out : List Bytes) × (loghex 6 6 (codes "seventeen letters") ≡ some out) × (length out ≡ 2)
loghex_lines_example = loghex_lines 6 6 (codes "seventeen letters")

abbrev opened : LogState
opened = record { level = pos 3; file = some 4; open_files = 4 ∷ []; written = [] }

-- The file is deleted before the first call, and nothing can be opened at the second.
abbrev calls : List LogCall
calls =
    record {
      answers = record { links = some 0; opened = some 5 };
      time = [];
      type = crit;
      text = codes "Killer\n";
    }
    ∷ record {
      answers = record { links = none; opened = none };
      time = [];
      type = crit;
      text = codes "Killer\n";
    }
    ∷ []

log_all-IsOwned_example : IsOwned (log_all (pos 3) calls opened)
log_all-IsOwned_example = log_all-IsOwned (pos 3) calls opened refl
