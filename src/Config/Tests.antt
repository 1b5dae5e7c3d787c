-- ===== src/Config/Tests.antt =====
-- Small files of settings.
use greensql_fw.Base.{equal, Bytes, [], ◌∷◌, List, codes, some, false, ◌≡◌, refl}
use greensql_fw.Base.Int.{pos}
use greensql_fw.Misc.{trim_str, parse_conf_line, str_lowercase, find_byte}
use greensql_fw.Config.{init, load}

abbrev pub lines : List Bytes
lines =
    codes "# risk"
    ∷ codes "[risk engine]"
    ∷ codes "Block_level = 45"
    ∷ codes "risk_bruteforce=99"
    ∷ []

test_block_level : (load init (some lines)).0.re_block_level ≡ pos 45
unfolding load init trim_str parse_conf_line str_lowercase find_byte equal
test_block_level = refl

-- A line of blanks only ends the loading.
test_blank_line : (load init (some (codes "  " ∷ lines))).1 ≡ false
unfolding load init trim_str parse_conf_line str_lowercase
test_blank_line = refl
