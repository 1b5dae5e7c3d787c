-- ===== src/Driver/Escape.antt =====
-- db_escape_string of src/lib/sql_api.c, for both libraries. The function of the library that escapes
-- is a parameter.
use greensql_fw.Base.{
  ℕ, ◌+◌, ◌*◌, ◌≤◌, Bool, true, false, not, ◌&&◌, ◌==◌, ltb, if◌then◌else◌, Bytes, [], ◌∷◌, ◌++◌,
  Option, none, some, length, take, length-append, ◌≡◌, refl, ◌∙◌, ap, arith, lt→ltb, le→ltb,
}
use greensql_fw.Normalization.Loops.{span}
use greensql_fw.Buffer.Fifo.{take_all}

-- strlen: the bytes in front of the first zero.
pub strlen : Bytes → ℕ
strlen str = span (λ c. not (c == 0)) str

-- The call with the length of `str`. The buffer has four bytes for each byte in front of the first
-- zero, and one; the library writes its text with a zero behind it. `none` is a write behind the
-- buffer.
pub db_escape_string : (Bytes → Bytes) → Bytes → Option Bytes
db_escape_string escape str =
    let q = escape str in
    let size = strlen str * 4 + 1 in
    if ltb size (length q + 1) then none else some (take (strlen q) q)

-- No zero in the text.
abbrev pub zero_free : Bytes → Bool
zero_free [] = true
zero_free (c ∷ s) = not (c == 0) && zero_free s

-- What is documented of mysql_real_escape_string: each byte becomes one or two, and none of them is
-- a zero.
pub record IsEscape (escape : Bytes → Bytes) : Type 0 where
  pub shortest : (s : Bytes) → length s ≤ length (escape s)
  pub longest : (s : Bytes) → length (escape s) ≤ length s * 2
  pub zeros : (s : Bytes) → zero_free (escape s) ≡ true

strlen-zero_free : (s : Bytes) → zero_free s ≡ true → strlen s ≡ length s
unfolding strlen span
strlen-zero_free [] h = refl
strlen-zero_free (c ∷ s) h = ground (arith, strlen-zero_free s)

strlen-append : (s rest : Bytes) → zero_free s ≡ true → strlen (s ++ (0 ∷ rest)) ≡ length s
unfolding strlen span
strlen-append [] rest h = refl
strlen-append (c ∷ s) rest h = ground (arith, strlen-append s rest)

-- A text without a zero is escaped as a whole. With a zero behind it, and behind that three times as
-- many bytes as in front, a library that escapes as MySQL's does writes behind the buffer: its size goes
-- by strlen, the text by its length.
pub db_escape_string_zero :
    (escape : Bytes → Bytes) (s rest : Bytes)
    → IsEscape escape
    → zero_free s ≡ true
    → length s * 3 ≤ length rest
    → (db_escape_string escape s ≡ some (escape s))
      × (db_escape_string escape (s ++ (0 ∷ rest)) ≡ none)
unfolding db_escape_string
db_escape_string_zero escape s rest law h l =
    let q = escape (s ++ (0 ∷ rest)) in
    let whole : ltb (strlen s * 4 + 1) (length (escape s) + 1) ≡ false =
      le→ltb (strlen s * 4 + 1) (length (escape s) + 1)
        (omega (arith, strlen-zero_free s h, law.longest s)) in
    let all : take (strlen (escape s)) (escape s) ≡ escape s =
      ap (λ n. take n (escape s)) (strlen-zero_free (escape s) (law.zeros s))
      ∙ take_all (escape s) in
    let over : ltb (strlen (s ++ (0 ∷ rest)) * 4 + 1) (length q + 1) ≡ true =
      lt→ltb (strlen (s ++ (0 ∷ rest)) * 4 + 1) (length q + 1) (
        omega (
          arith,
          strlen-append s rest h,
          law.shortest (s ++ (0 ∷ rest)),
          length-append s (0 ∷ rest),
          l,
        )) in
    (rw (whole, all), rw over)
