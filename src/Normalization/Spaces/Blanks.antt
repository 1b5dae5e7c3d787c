-- ===== src/Normalization/Spaces/Blanks.antt =====
-- The spaces that removeSpaces of src/normalization.cpp leaves in a text.
use greensql_fw.Base.{
  ℕ, zero, suc, ◌+◌, ◌-◌, Bool, true, false, ◌==◌, Bytes, [], ◌∷◌, some, ◌≡◌, ◌≢◌, refl, ap, ◌∙◌,
  arith, char_at, length, erase,
}
use greensql_fw.Normalization.Chars.{sql_space}
use greensql_fw.Normalization.Spaces.{
  space_loop, tighten_before, tighten_behind, tighten_loop, drop_last_space, remove_spaces,
}
use greensql_fw.Normalization.Spaces.Collapse.{single_blanks, space_loop_blanks}

-- A text that may stand behind a space may stand anywhere.
single_blanks_weaken :
    (behind : Bool) (s : Bytes) → single_blanks true s ≡ true → single_blanks behind s ≡ true
unfolding single_blanks
single_blanks_weaken behind [] h = refl
single_blanks_weaken behind (c ∷ s) h = ground arith

-- A blank can be taken out.
single_blanks-erase :
    (behind : Bool) (s : Bytes) (i : ℕ)
    → single_blanks behind s ≡ true
    → (char_at s i == b' ') ≡ true
    → single_blanks behind (erase s i 1) ≡ true
unfolding single_blanks erase
single_blanks-erase behind [] i h e = ground arith
single_blanks-erase behind (c ∷ s) zero h e =
    let here : c ≡ b' ' = ground (arith, e) in
    let blank : sql_space b' ' ≡ true = unfold sql_space in refl in
    let found : sql_space c ≡ true = ap sql_space here ∙ blank in
    single_blanks_weaken behind s (ground (arith, found))
single_blanks-erase behind (c ∷ s) (suc i) h e =
    ground (arith, single_blanks-erase (sql_space c) s i)

tighten_before-single_blanks :
    (s : Bytes) (i : ℕ)
    → single_blanks false s ≡ true
    → single_blanks false (tighten_before s i) ≡ true
unfolding tighten_before
tighten_before-single_blanks s i h = ground (arith, single_blanks-erase false s i h)

tighten_behind-single_blanks :
    (s : Bytes) (i : ℕ)
    → single_blanks false s ≡ true
    → single_blanks false (tighten_behind s i) ≡ true
unfolding tighten_behind
tighten_behind-single_blanks s i h = ground (arith, single_blanks-erase false s (i + 1) h)

tighten_loop-single_blanks :
    (fuel : ℕ) (s : Bytes) (i : ℕ)
    → single_blanks false s ≡ true
    → single_blanks false (tighten_loop fuel s i) ≡ true
unfolding tighten_loop
tighten_loop-single_blanks zero s i h = h
tighten_loop-single_blanks (suc fuel) s i h =
    let before = tighten_before-single_blanks s i h in
    let body = tighten_behind-single_blanks (tighten_before s i) i before in
    ground (
      arith,
      h,
      tighten_loop-single_blanks fuel (tighten_behind (tighten_before s i) i) (i + 1) body,
    )

drop_last_space-single_blanks :
    (s : Bytes) → single_blanks false s ≡ true → single_blanks false (drop_last_space s) ≡ true
unfolding drop_last_space
drop_last_space-single_blanks s h = ground (arith, single_blanks-erase false s (length s - 1) h)

-- On a text that is not empty removeSpaces returns; each space in its result is a blank, and no two
-- stand side by side.
pub remove_spaces_blanks :
    (query : Bytes)
    → query ≢ []
    → (result : Bytes) × (remove_spaces query ≡ some result) × (single_blanks false result ≡ true)
unfolding remove_spaces
remove_spaces_blanks [] h = absurd (h refl)
remove_spaces_blanks (c ∷ r) h =
    let spaced = space_loop (length (c ∷ r)) (c ∷ r) 0 in
    (
      _,
      refl,
      drop_last_space-single_blanks (tighten_loop (length spaced) spaced 0)
          (tighten_loop-single_blanks (length spaced) spaced 0 (space_loop_blanks (c ∷ r)).1),
    )
