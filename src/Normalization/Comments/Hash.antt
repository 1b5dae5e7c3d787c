-- ===== src/Normalization/Comments/Hash.antt =====
-- removeHashComment of src/normalization.cpp as a machine that reads the text once.
use greensql_fw.Base.{
  ℕ, zero, suc, ◌+◌, ◌-◌, ◌≤◌, ◌<◌, Bool, true, not, ◌&&◌, ◌==◌, if◌then◌else◌, Bytes, [], ◌∷◌,
  ◌++◌, ◌≡◌, ◌≢◌, refl, sym, ap, ◌∙◌, inl, inr, arith, Bool-cases, lt→ltb, le→ltb, char_at, length,
  erase, drop, length-append, drop-append_add, length-drop, append_assoc, append-snoc, length-snoc,
  char_at-append, erase-append,
}
use greensql_fw.Normalization.Loops.{span, skip_while-append, skip_while-span}
use greensql_fw.Normalization.Comments.{is_newline, hash_end, hash_loop, remove_hash_comment}

pub data Mode : Type 0 where
  text comment breaks : Mode

abbrev text_next : ℕ → Mode
text_next c = if c == b'#' then comment else text

abbrev pub next : Mode → ℕ → Mode
next text c = text_next c
next comment c = if is_newline c then breaks else comment
next breaks c = if is_newline c then breaks else text_next c

abbrev pub output : Mode → ℕ → Bytes
output text c = c ∷ []
output comment c = []
output breaks c = if is_newline c then [] else c ∷ []

unfoldable pub scan : Mode → Bytes → Bytes
scan m [] = []
scan m (c ∷ r) = output m c ++ scan (next m c) r

-- How far the two inner loops go.
line_span : Bytes → ℕ
line_span r = let n = span (λ c. not (is_newline c)) r in n + span is_newline (drop n r)

hash_end-append :
    (pre r : Bytes) (c i : ℕ)
    → i ≡ length pre
    → hash_end (pre ++ (c ∷ r)) (i + 1) ≡ i + 1 + line_span r
unfolding hash_end line_span
hash_end-append pre r c i e =
    let n = span (λ c. not (is_newline c)) r in
    rw (skip_while-append (λ c. not (is_newline c)) pre r c i e) (
      skip_while-span is_newline (pre ++ (c ∷ r)) (i + 1 + n)
      ∙ rw
          (
            append-snoc pre r c,
            drop-append_add (pre ++ (c ∷ [])) r (i + 1 + n) n (omega (arith, length-snoc pre c)),
          )
          (omega arith))

scan-breaks : (r : Bytes) → scan breaks r ≡ scan text (drop (span is_newline r) r)
unfolding scan span
scan-breaks [] = refl
scan-breaks (c ∷ r) = elim (Bool-cases (is_newline c)) [
  | inl e ↦ rw e (scan-breaks r)
  | inr e ↦ rw e
]

scan-comment : (r : Bytes) → scan comment r ≡ scan text (drop (line_span r) r)
unfolding scan span line_span
scan-comment [] = refl
scan-comment (c ∷ r) = elim (Bool-cases (is_newline c)) [
  | inl e ↦
      let k = span is_newline r in
      let z : 0 + suc k ≡ suc k = omega arith in rw (e, e, z) (scan-breaks r)
  | inr e ↦
      let a = span (λ x. not (is_newline x)) r in
      let b = span is_newline (drop a r) in
      let z : suc a + b ≡ suc (a + b) = omega arith in rw (e, z) (scan-comment r)
]

hash_loop-nil :
    (fuel : ℕ) (query : Bytes) (i : ℕ) → length query ≤ i → hash_loop fuel query i ≡ query
unfolding hash_loop
hash_loop-nil zero query i h = refl
hash_loop-nil (suc fuel) query i h = rw (le→ltb i (length query) h)

-- One round, at the byte `c` behind `pre`.
hash_loop-round :
    (fuel : ℕ) (pre r : Bytes) (c i : ℕ)
    → i ≡ length pre
    → hash_loop (suc fuel) (pre ++ (c ∷ r)) i
      ≡ hash_loop fuel
          ((pre ++ (c ∷ [])) ++ (if c == b'#' then drop (line_span r) r else r))
          (i + 1)
unfolding hash_loop
hash_loop-round fuel pre r c i e =
    let more : i < length (pre ++ (c ∷ r)) = omega (arith, length-append pre (c ∷ r)) in
    let byte : char_at (pre ++ (c ∷ r)) i ≡ c = rw e (char_at-append pre (c ∷ r)) in
    let count : hash_end (pre ++ (c ∷ r)) (i + 1) - i - 1 ≡ line_span r =
      omega (arith, hash_end-append pre r c i e) in
    let cut : erase (pre ++ (c ∷ r)) (i + 1) (line_span r)
        ≡ (pre ++ (c ∷ [])) ++ drop (line_span r) r =
      rw (e, ← length-snoc pre c, append-snoc pre r c)
        (erase-append (pre ++ (c ∷ [])) r (line_span r)) in
    rw (lt→ltb i _ more, byte, count, cut)
      (elim (Bool-cases (c == b'#')) [
        | inl hit ↦ rw hit
        | inr miss ↦ rw (miss, append-snoc pre r c)
      ])

hash_loop-scan :
    (fuel : ℕ) (pre r : Bytes) (i : ℕ)
    → i ≡ length pre
    → length r ≤ fuel
    → hash_loop fuel (pre ++ r) i ≡ pre ++ scan text r
unfolding scan
hash_loop-scan fuel pre [] i e h =
    hash_loop-nil fuel (pre ++ []) i (omega (arith, length-append pre []))
hash_loop-scan zero pre (c ∷ r) i e h = elim h [ ]
hash_loop-scan (suc fuel) pre (c ∷ r) i e h =
    let read : i + 1 ≡ length (pre ++ (c ∷ [])) = omega (arith, length-snoc pre c) in
    elim (Bool-cases (c == b'#')) [
      | inl hit ↦
          rw
            (
              hash_loop-round fuel pre r c i e,
              hit,
              hash_loop-scan fuel (pre ++ (c ∷ [])) (drop (line_span r) r) (i + 1) read
                  (omega (arith, length-drop (line_span r) r)),
              ← scan-comment r,
            )
            (sym (append-snoc pre (scan comment r) c))
      | inr miss ↦
          rw
            (
              hash_loop-round fuel pre r c i e,
              miss,
              hash_loop-scan fuel (pre ++ (c ∷ [])) r (i + 1) read (omega arith),
            )
            (sym (append-snoc pre (scan text r) c))
    ]

-- The in-place loop of removeHashComment makes of a text what the machine makes of it that reads it
-- once, started outside of a comment.
pub remove_hash_comment-scan : (query : Bytes) → remove_hash_comment query ≡ scan text query
unfolding remove_hash_comment
remove_hash_comment-scan query = hash_loop-scan (length query) [] query 0 refl (omega arith)

-- A line without a break.
abbrev pub one_line : Bytes → Bool
one_line [] = true
one_line (c ∷ r) = not (is_newline c) && one_line r

unfoldable pub after : Mode → Bytes → Mode
after m [] = m
after m (c ∷ r) = after (next m c) r

scan-append : (m : Mode) (a b : Bytes) → scan m (a ++ b) ≡ scan m a ++ scan (after m a) b
unfolding scan after
scan-append m [] b = refl
scan-append m (c ∷ a) b = rw (scan-append (next m c) a b) (sym (append_assoc (output m c) _ _))

scan-one_line :
    (body rest : Bytes) → one_line body ≡ true → scan comment (body ++ rest) ≡ scan comment rest
unfolding scan
scan-one_line [] rest h = refl
scan-one_line (c ∷ body) rest h = ground (arith, scan-one_line body rest)

remove_hash_comment-append :
    (pre body rest : Bytes)
    → after text pre ≡ text
    → one_line body ≡ true
    → remove_hash_comment (pre ++ (b'#' ∷ (body ++ rest)))
      ≡ scan text pre ++ (b'#' ∷ scan comment rest)
unfolding scan
remove_hash_comment-append pre body rest m h =
    rw (remove_hash_comment-scan, scan-append text pre, m)
      (ap (λ x. scan text pre ++ (b'#' ∷ x)) (scan-one_line body rest h))

-- What a comment says leaves no trace: the text from `#` to the break of the line can be replaced
-- by any other. The `#` does not itself stand in a comment.
remove_hash_comment_body :
    (pre body body' rest : Bytes)
    → after text pre ≡ text
    → one_line body ≡ true
    → one_line body' ≡ true
    → remove_hash_comment (pre ++ (b'#' ∷ (body ++ rest)))
      ≡ remove_hash_comment (pre ++ (b'#' ∷ (body' ++ rest)))
remove_hash_comment_body pre body body' rest m h h' =
    remove_hash_comment-append pre body rest m h
    ∙ sym (remove_hash_comment-append pre body' rest m h')

pub remove_hash_comment-ne-nil : (query : Bytes) → query ≢ [] → remove_hash_comment query ≢ []
unfolding scan
remove_hash_comment-ne-nil [] h = absurd (h refl)
remove_hash_comment-ne-nil (c ∷ r) h = rw (remove_hash_comment-scan (c ∷ r)) (λ e. cc)
