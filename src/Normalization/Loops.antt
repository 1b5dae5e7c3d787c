-- ===== src/Normalization/Loops.antt =====
-- The loops `for (; j < query.size() && p(query[j]); j++) ;` of src/normalization.cpp.
use greensql_fw.Base.{
  ℕ, zero, suc, ◌+◌, ◌≤◌, Bool, ◌&&◌, ltb, ltb→lt, ltb→le, if◌then◌else◌, Bytes, [], ◌∷◌, ◌++◌, ◌≡◌,
  ap, ◌∙◌, inl, inr, arith, Bool-cases, char_at, length, drop, drop-all, drop-char_at, drop-append,
  append-snoc, length-snoc,
}

skip_loop : ℕ → (ℕ → Bool) → Bytes → ℕ → ℕ
skip_loop zero p query j = j
skip_loop (suc fuel) p query j =
    let next = skip_loop fuel p query (j + 1) in
    if ltb j (length query) && p (char_at query j) then next else j

unfoldable pub skip_while : (ℕ → Bool) → Bytes → ℕ → ℕ
unfolding skip_loop
skip_while p query j = skip_loop (length query) p query j

-- How many bytes at the head of a text satisfy `p`.
unfoldable pub span : (ℕ → Bool) → Bytes → ℕ
span p [] = 0
span p (c ∷ r) = if p c then suc (span p r) else 0

skip_loop-span :
    (fuel : ℕ) (p : ℕ → Bool) (s : Bytes) (j : ℕ)
    → length s ≤ fuel + j
    → skip_loop fuel p s j ≡ j + span p (drop j s)
unfolding skip_loop span
skip_loop-span zero p s j h = rw (drop-all j s (omega arith)) (omega arith)
skip_loop-span (suc fuel) p s j h = elim (Bool-cases (ltb j (length s))) [
  | inr stop ↦ rw (stop, drop-all j s (ltb→le j (length s) stop)) (omega arith)
  | inl go ↦
      rw (go, drop-char_at s j (ltb→lt j (length s) go))
        (elim (Bool-cases (p (char_at s j))) [
          | inl hit ↦ rw hit (omega (arith, skip_loop-span fuel p s (j + 1) (omega arith)))
          | inr miss ↦ rw miss (omega arith)
        ])
]

pub skip_while-span : (p : ℕ → Bool) (s : Bytes) (j : ℕ) → skip_while p s j ≡ j + span p (drop j s)
unfolding skip_while
skip_while-span p s j = skip_loop-span (length s) p s j (omega arith)

-- The same behind a text `pre` that was read, the byte at `i` included.
pub skip_while-append :
    (p : ℕ → Bool) (pre r : Bytes) (c i : ℕ)
    → i ≡ length pre
    → skip_while p (pre ++ (c ∷ r)) (i + 1) ≡ i + 1 + span p r
skip_while-append p pre r c i e =
    skip_while-span p (pre ++ (c ∷ r)) (i + 1)
    ∙ ap (λ t. i + 1 + span p t)
        (rw (e, ← length-snoc pre c, append-snoc pre r c) (drop-append (pre ++ (c ∷ [])) r))
