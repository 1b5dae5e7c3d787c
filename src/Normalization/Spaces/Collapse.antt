-- ===== src/Normalization/Spaces/Collapse.antt =====
-- The first loop of removeSpaces of src/normalization.cpp as a machine that reads the text once.
use greensql_fw.Base.{
  ℕ, zero, suc, ◌+◌, ◌-◌, ◌≤◌, ◌<◌, Bool, true, false, not, ◌&&◌, ◌||◌, ◌==◌, if◌then◌else◌, Bytes,
  [], ◌∷◌, ◌++◌, ◌≡◌, refl, ◌∙◌, inl, inr, arith, Bool-cases, lt→ltb, le→ltb, char_at, length, drop,
  length-append, length-drop, append-snoc, length-snoc, char_at-append, erase-append, set-append,
}
use greensql_fw.Normalization.Chars.{sql_space}
use greensql_fw.Normalization.Loops.{span, skip_while-append}
use greensql_fw.Normalization.Spaces.{collapse, space_loop}

-- The text with one blank for each run of spaces; the flag is set behind a space.
unfoldable pub squeeze : Bool → Bytes → Bytes
squeeze behind [] = []
squeeze behind (c ∷ r) =
    let rest = c ∷ squeeze false r in
    let skipped = squeeze true r in
    if sql_space c then (if behind then skipped else b' ' ∷ skipped) else rest

squeeze-span : (r : Bytes) → squeeze true r ≡ squeeze false (drop (span sql_space r) r)
unfolding squeeze span
squeeze-span [] = refl
squeeze-span (c ∷ r) = elim (Bool-cases (sql_space c)) [
  | inl e ↦ rw e (squeeze-span r)
  | inr e ↦ rw (e, e)
]

collapse-append :
    (pre r : Bytes) (c i : ℕ)
    → i ≡ length pre
    → collapse (pre ++ (c ∷ r)) i ≡ (pre ++ (b' ' ∷ [])) ++ drop (span sql_space r) r
unfolding collapse
collapse-append pre r c i e =
    let n = span sql_space r in
    let count : i + 1 + n - i - 1 ≡ n = omega arith in
    rw (skip_while-append sql_space pre r c i e, count)
      (elim (Bool-cases (i + 1 + n == i + 1)) [
        | inl none ↦
            let z : n ≡ 0 = ground (arith, none) in
            rw none (rw (z, e, set-append pre r c b' ') (append-snoc pre r b' '))
        | inr some ↦ rw some (
            rw (e, set-append pre r c b' ', append-snoc pre r b' ', ← length-snoc pre b' ')
              (erase-append (pre ++ (b' ' ∷ [])) r n))
      ])

space_loop-nil :
    (fuel : ℕ) (query : Bytes) (i : ℕ) → length query ≤ i → space_loop fuel query i ≡ query
unfolding space_loop
space_loop-nil zero query i h = refl
space_loop-nil (suc fuel) query i h = rw (le→ltb i (length query) h)

space_loop-round :
    (fuel : ℕ) (pre r : Bytes) (c i : ℕ)
    → i ≡ length pre
    → space_loop (suc fuel) (pre ++ (c ∷ r)) i ≡ (
        if sql_space c
        then space_loop fuel ((pre ++ (b' ' ∷ [])) ++ drop (span sql_space r) r) (i + 1)
        else space_loop fuel ((pre ++ (c ∷ [])) ++ r) (i + 1))
unfolding space_loop
space_loop-round fuel pre r c i e =
    let more : i < length (pre ++ (c ∷ r)) = omega (arith, length-append pre (c ∷ r)) in
    let byte : char_at (pre ++ (c ∷ r)) i ≡ c = rw e (char_at-append pre (c ∷ r)) in
    rw (lt→ltb i _ more, byte, collapse-append pre r c i e, append-snoc pre r c)

space_loop-squeeze :
    (fuel : ℕ) (pre r : Bytes) (i : ℕ)
    → i ≡ length pre
    → length r ≤ fuel
    → space_loop fuel (pre ++ r) i ≡ pre ++ squeeze false r
unfolding squeeze
space_loop-squeeze fuel pre [] i e h =
    space_loop-nil fuel (pre ++ []) i (omega (arith, length-append pre []))
space_loop-squeeze zero pre (c ∷ r) i e h = elim h [ ]
space_loop-squeeze (suc fuel) pre (c ∷ r) i e h =
    space_loop-round fuel pre r c i e ∙ elim (Bool-cases (sql_space c)) [
      | inl hit ↦
          rw (hit, squeeze-span r, append-snoc pre (squeeze false (drop (span sql_space r) r)) b' ')
            (space_loop-squeeze fuel (pre ++ (b' ' ∷ [])) (drop (span sql_space r) r) (i + 1)
              (rw (length-snoc pre b' ') (omega arith))
              (omega (arith, length-drop (span sql_space r) r)))
      | inr miss ↦
          rw (miss, append-snoc pre (squeeze false r) c)
            (space_loop-squeeze fuel (pre ++ (c ∷ [])) r (i + 1)
              (rw (length-snoc pre c) (omega arith)) (omega arith))
    ]

-- Each space of the text is a blank, and no two stand side by side. The flag is set behind a space.
unfoldable pub single_blanks : Bool → Bytes → Bool
single_blanks behind [] = true
single_blanks behind (c ∷ r) =
    (not (sql_space c) || (c == b' ' && not behind)) && single_blanks (sql_space c) r

squeeze-single_blanks : (behind : Bool) (r : Bytes) → single_blanks behind (squeeze behind r) ≡ true
unfolding squeeze single_blanks
squeeze-single_blanks behind [] = refl
squeeze-single_blanks behind (c ∷ r) =
    let blank : sql_space b' ' ≡ true = unfold sql_space in refl in
    ground (arith, blank, squeeze-single_blanks true r, squeeze-single_blanks false r)

-- The first loop of removeSpaces makes of a text what the machine makes of it that reads it once and
-- puts one blank for each run of spaces; each space that is left is a blank and stands alone.
pub space_loop_blanks :
    (query : Bytes)
    → (space_loop (length query) query 0 ≡ squeeze false query)
      × (single_blanks false (space_loop (length query) query 0) ≡ true)
space_loop_blanks query =
    let machine = space_loop-squeeze (length query) [] query 0 refl (omega arith) in
    (machine, rw machine (squeeze-single_blanks false query))
