-- ===== src/Normalization/Numbers/Nonempty.antt =====
-- removeNumbers of src/normalization.cpp never leaves the empty text.
use greensql_fw.Base.{
  ℕ, zero, suc, ◌+◌, ◌-◌, ◌<◌, Bytes, [], ◌≢◌, arith, length, set, length-erase_pos, length-set,
  ne-nil-pos, pos-ne-nil,
}
use greensql_fw.Normalization.Chars.{is_hex}
use greensql_fw.Normalization.Loops.{skip_while}
use greensql_fw.Normalization.Numbers.{decimal_end, replace_number, number_loop, remove_numbers}

replace_number-pos :
    (query : Bytes) (i : ℕ) → 0 < length query → 0 < length (replace_number query i)
unfolding replace_number
replace_number-pos query i h = ground (
  arith,
  length-set query i b'?',
  length-erase_pos (set query i b'?') (i + 1) (skip_while is_hex query (i + 2) - i - 1),
  length-erase_pos (set query i b'?') (i + 1) (decimal_end query i - i - 1),
)

number_loop-pos :
    (fuel : ℕ) (query : Bytes) (i : ℕ) → 0 < length query → 0 < length (number_loop fuel query i)
unfolding number_loop
number_loop-pos zero query i h = h
number_loop-pos (suc fuel) query i h = ground (
  arith,
  number_loop-pos fuel (replace_number query i) (i + 1) (replace_number-pos query i h),
  number_loop-pos fuel query (i + 1) h,
)

pub remove_numbers-ne-nil : (query : Bytes) → query ≢ [] → remove_numbers query ≢ []
unfolding remove_numbers
remove_numbers-ne-nil query h =
    ne-nil-pos _ (number_loop-pos (length query) query 1 (pos-ne-nil query h))
