-- ===== src/Normalization/Quotes/Machine.antt =====
-- The in-place loops of removeQuotedText as a machine that reads the text once, byte by byte.
use greensql_fw.Base.{
  ℕ, zero, suc, ◌+◌, ◌-◌, ◌≤◌, ◌<◌, Bool, true, false, not, ◌&&◌, ◌||◌, ltb, ◌==◌, if◌then◌else◌,
  Bytes, [], ◌∷◌, ◌++◌, char_at, length, drop, ◌≡◌, refl, ap, ◌∙◌, inl, inr, arith, Bool-cases,
  drop-append, length-snoc, append-snoc, length-drop, drop-char_at, drop-all, ltb→le, ltb→lt,
  length-append, char_at-append, set-append, erase-append, lt→ltb, le→ltb,
}
use greensql_fw.Normalization.Quotes.{
  look_loop, look_for_char, replace_literal, quoted_loop, remove_quoted_text,
}

-- Outside of a literal, in a literal that `d` closes, or behind a `d` that may be doubled.
-- The flag is set behind a backslash.
pub data Mode : Type 0 where
  outside : Bool → Mode
  inside : ℕ → Bool → Mode
  closing : ℕ → Mode

abbrev pub outside_next : Bool → ℕ → Mode
outside_next quoted c =
    if c == b'\'' && not quoted
    then inside b'\'' false
    else if c == b'"' && not quoted
    then inside b'"' false
    else outside (c == b'\\' && not quoted)

abbrev pub outside_output : Bool → ℕ → Bytes
outside_output quoted c = if (c == b'\'' || c == b'"') && not quoted then b'?' ∷ [] else c ∷ []

abbrev pub next : Mode → ℕ → Mode
next (outside quoted) c = outside_next quoted c
next (inside d quoted) c =
    if c == d && not quoted then closing d else inside d (c == b'\\' && not quoted)
next (closing d) c = if c == d then inside d false else outside_next false c

abbrev pub output : Mode → ℕ → Bytes
output (outside quoted) c = outside_output quoted c
output (inside d quoted) c = []
output (closing d) c = if c == d then [] else outside_output false c

unfoldable pub scan : Mode → Bytes → Bytes
scan m [] = []
scan m (c ∷ r) = output m c ++ scan (next m c) r

-- How far lookForChar looks, as a recursion on the text that follows.
span : ℕ → Bool → Bytes → ℕ
span d quoted [] = 0
span d quoted (c ∷ []) = if c == d && not quoted then 0 else 1
span d quoted (c ∷ e ∷ r) =
    let doubled = suc (suc (span d false r)) in
    let onwards = suc (span d (c == b'\\' && not quoted) (e ∷ r)) in
    if c == d && not quoted then (if e == d then doubled else 0) else onwards

-- A delimiter that the source passes.
abbrev pub IsQuote : ℕ → Type 0
IsQuote d = (d == b'\'' || d == b'"') ≡ true

look_loop-span :
    (fuel : ℕ) (s : Bytes) (d : ℕ) (quoted : Bool) (j : ℕ)
    → length s ≤ fuel + j
    → IsQuote d
    → look_loop fuel s d quoted j ≡ j + span d quoted (drop j s)
unfolding look_loop span
look_loop-span zero s d quoted j h k = rw (drop-all j s (omega arith)) (omega arith)
look_loop-span (suc fuel) s d quoted j h k = elim (Bool-cases (ltb j (length s))) [
  | inr stop ↦ rw (stop, drop-all j s (ltb→le j (length s) stop)) (omega arith)
  | inl go ↦ elim (Bool-cases (ltb (j + 1) (length s))) [
    | inr last ↦
        rw (drop-char_at s j (ltb→lt j (length s) go), drop-all (j + 1) s (ltb→le _ _ last))
          (ground (
            arith,
            look_loop-span fuel s d (char_at s j == b'\\' && not quoted) (j + 1),
            drop-all (j + 1) s,
          ))
    | inl more ↦
        let second = drop-char_at s (j + 1) (ltb→lt (j + 1) (length s) more) in
        let two : j + 1 + 1 ≡ j + 2 = omega arith in
        rw (drop-char_at s j (ltb→lt j (length s) go), second, two)
          (ground (
            arith,
            second,
            two,
            look_loop-span fuel s d (char_at s j == b'\\' && not quoted) (j + 1) (omega arith) k,
            look_loop-span fuel s d false (j + 2) (omega arith) k,
          ))
  ]
]

-- What the machine makes of the rest of a literal is what it makes of the text behind it.
scan-inside :
    (d : ℕ) (quoted : Bool) (r : Bytes)
    → IsQuote d
    → scan (inside d quoted) r ≡ scan (outside false) (drop (suc (span d quoted r)) r)
unfolding scan span
scan-inside d quoted [] k = refl
scan-inside d quoted (c ∷ []) k = ground arith
scan-inside d quoted (c ∷ e ∷ r) k = elim (Bool-cases (c == d && not quoted)) [
  | inr onwards ↦ rw onwards (scan-inside d (c == b'\\' && not quoted) (e ∷ r) k)
  | inl hit ↦ elim (Bool-cases (e == d)) [
    | inl doubled ↦ rw (hit, doubled) (scan-inside d false r k)
    | inr behind ↦ rw (hit, behind)
  ]
]

replace_literal-append :
    (pre r : Bytes) (c d i : ℕ)
    → i ≡ length pre
    → IsQuote d
    → replace_literal (pre ++ (c ∷ r)) i d ≡ (pre ++ (b'?' ∷ [])) ++ drop (suc (span d false r)) r
unfolding look_for_char
replace_literal-append pre r c d i e k =
    let s = pre ++ (c ∷ r) in
    let n = length s in
    let behind : drop (i + 1) s ≡ r =
      rw (e, ← length-snoc pre c, append-snoc pre r c) (drop-append (pre ++ (c ∷ [])) r) in
    let found : look_loop n s d false (i + 1) ≡ i + 1 + span d false r =
      look_loop-span n s d false (i + 1) (omega arith) k
      ∙ ap (λ t. i + 1 + span d false t) behind in
    let count : look_loop n s d false (i + 1) - i ≡ suc (span d false r) = omega (arith, found) in
    rw (count, e, set-append pre r c b'?', append-snoc pre r b'?', ← length-snoc pre b'?')
      (erase-append (pre ++ (b'?' ∷ [])) r (suc (span d false r)))

quoted_loop-nil :
    (fuel : ℕ) (query : Bytes) (quoted : Bool) (i : ℕ)
    → length query ≤ i
    → quoted_loop fuel query quoted i ≡ query
unfolding quoted_loop
quoted_loop-nil zero query quoted i h = refl
quoted_loop-nil (suc fuel) query quoted i h = rw (le→ltb i (length query) h)

-- One round, at the byte `c`.
quoted_loop-round :
    (fuel : ℕ) (query : Bytes) (quoted : Bool) (i c : ℕ)
    → i < length query
    → char_at query i ≡ c
    → quoted_loop (suc fuel) query quoted i ≡ (
        if c == b'\'' && not quoted
        then quoted_loop fuel (replace_literal query i b'\'') quoted (i + 1)
        else if c == b'"' && not quoted
        then quoted_loop fuel (replace_literal query i b'"') quoted (i + 1)
        else quoted_loop fuel query (c == b'\\' && not quoted) (i + 1))
unfolding quoted_loop
quoted_loop-round fuel query quoted i c h e =
    rw (lt→ltb i (length query) h, e)
      (elim (Bool-cases (c == b'\\' && not quoted)) [
        | inl escape ↦ rw escape
        | inr plain ↦ rw plain
      ])

quoted_loop-scan :
    (fuel : ℕ) (pre r : Bytes) (quoted : Bool) (i : ℕ)
    → i ≡ length pre
    → length r ≤ fuel
    → quoted_loop fuel (pre ++ r) quoted i ≡ pre ++ scan (outside quoted) r
unfolding scan
quoted_loop-scan zero pre [] quoted i e h =
    quoted_loop-nil zero (pre ++ []) quoted i (omega (arith, length-append pre []))
quoted_loop-scan zero pre (c ∷ r) quoted i e h = elim h [ ]
quoted_loop-scan (suc fuel) pre [] quoted i e h =
    quoted_loop-nil (suc fuel) (pre ++ []) quoted i (omega (arith, length-append pre []))
quoted_loop-scan (suc fuel) pre (c ∷ r) quoted i e h =
    let round =
      quoted_loop-round fuel (pre ++ (c ∷ r)) quoted i c (omega (arith, length-append pre (c ∷ r)))
        (rw e (char_at-append pre (c ∷ r))) in
    let onwards : (q : Bool)
        → quoted_loop fuel (pre ++ (c ∷ r)) q (i + 1) ≡ pre ++ (c ∷ scan (outside q) r) =
      λ q.
        rw (append-snoc pre r c, append-snoc pre (scan (outside q) r) c)
          (quoted_loop-scan fuel (pre ++ (c ∷ [])) r q (i + 1)
            (rw (length-snoc pre c) (omega arith)) (omega arith)) in
    let literal : (d : ℕ)
        → IsQuote d
        → quoted_loop fuel (replace_literal (pre ++ (c ∷ r)) i d) false (i + 1)
          ≡ pre ++ (b'?' ∷ scan (inside d false) r) =
      λ d k.
        rw
          (
            replace_literal-append pre r c d i e k,
            scan-inside d false r k,
            append-snoc pre (scan (outside false) (drop (suc (span d false r)) r)) b'?',
          )
          (quoted_loop-scan fuel (pre ++ (b'?' ∷ [])) (drop (suc (span d false r)) r) false (i + 1)
            (rw (length-snoc pre b'?') (omega arith))
            (omega (arith, length-drop (suc (span d false r)) r))) in
    round
    ∙ ground (arith, onwards (c == b'\\' && not quoted), literal b'\'' refl, literal b'"' refl)

-- The in-place loops of removeQuotedText, with those of lookForChar, make of a text what the machine
-- makes of it that reads it once, started outside of a literal.
pub remove_quoted_text-scan :
    (query : Bytes) → remove_quoted_text query ≡ scan (outside false) query
unfolding remove_quoted_text
remove_quoted_text-scan query = quoted_loop-scan (length query) [] query false 0 refl (omega arith)
