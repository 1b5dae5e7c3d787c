-- ===== src/Base/Text.antt =====
-- std::string and other byte sequences as lists of byte values, and the operations of
-- std::string that the sources use on them.
use Prim.Native.Nat.{ℕ, zero, suc, ◌+◌, ◌≤◌, ◌<◌}
use Prim.Native.Char.{code}
use Prim.Native.String.{String}
use mathlib.Core.Bool.{Bool, true, false, ◌&&◌}
use mathlib.Core.List.{List, [], ◌∷◌, ◌++◌}
use mathlib.Core.Path.{◌≡◌, refl, ap}
use mathlib.Core.Logic.{◌↔◌, ◌≢◌}
use native.Mathlib.Omega.{arith}
use greensql_fw.Base.Tests.{◌==◌}
use greensql_fw.Base.Lists.{
  length, get_or, set, take, drop, length-take, length-drop, length-append,
}

abbrev pub Bytes : Type 0
Bytes = List ℕ

-- The bytes of an ASCII literal.
abbrev pub codes : String → Bytes
codes String.[] = []
codes (String.◌∷◌ c s) = code c ∷ codes s

-- `s[i]`: the byte at `i`, and the terminating zero at `s.size()`.
abbrev pub char_at : Bytes → ℕ → ℕ
char_at s i = get_or s i 0

-- `s.erase(i, n)` for `i <= s.size()`: a count past the end stops there.
unfoldable pub erase : Bytes → ℕ → ℕ → Bytes
erase s i n = take i s ++ drop n (drop i s)

-- `s.substr(i, n)` for `i <= s.size()`.
unfoldable pub substr : Bytes → ℕ → ℕ → Bytes
substr s i n = take n (drop i s)

-- `a == b` on strings.
unfoldable pub equal : (s t : Bytes) → Bool
equal [] [] = true
equal [] (e ∷ t) = false
equal (c ∷ s) [] = false
equal (c ∷ s) (e ∷ t) = equal s t && c == e

pub equal_iff : (s t : Bytes) → (equal s t ≡ true) ↔ (s ≡ t)
unfolding equal
equal_iff [] t = elim t [ [] ↦ ground arith | (e ∷ t) ↦ ground arith ]
equal_iff (c ∷ s) [] = ground arith
equal_iff (c ∷ s) (e ∷ t) = ground (equal_iff s t, arith)

-- An operation at the position behind `pre` sees only what follows it.
pub char_at-append : (pre r : Bytes) → char_at (pre ++ r) (length pre) ≡ char_at r 0
char_at-append [] r = refl
char_at-append (x ∷ pre) r = char_at-append pre r

pub char_at-append_suc : (pre r : Bytes) (k : ℕ) → char_at (pre ++ r) (length pre + k) ≡ char_at r k
char_at-append_suc [] r k = let e : 0 + k ≡ k = omega arith in rw e
char_at-append_suc (x ∷ pre) r k =
    let e : suc (length pre) + k ≡ suc (length pre + k) = omega arith in
    rw e (char_at-append_suc pre r k)

pub set-append : (pre r : Bytes) (c v : ℕ) → set (pre ++ (c ∷ r)) (length pre) v ≡ pre ++ (v ∷ r)
set-append [] r c v = refl
set-append (x ∷ pre) r c v = ap (◌∷◌ x) (set-append pre r c v)

pub erase-append : (pre r : Bytes) (n : ℕ) → erase (pre ++ r) (length pre) n ≡ pre ++ drop n r
unfolding erase
erase-append [] r n = refl
erase-append (x ∷ pre) r n = ap (◌∷◌ x) (erase-append pre r n)

pub length-erase-le : (s : Bytes) (i n : ℕ) → length (erase s i n) ≤ length s
unfolding erase
length-erase-le s i n = omega (
  arith,
  length-append (take i s) (drop n (drop i s)),
  length-take i s,
  length-drop n (drop i s),
  length-drop i s,
)

-- The text from an index on, inside the text and past its end.
pub drop-char_at : (s : Bytes) (j : ℕ) → j < length s → drop j s ≡ char_at s j ∷ drop (j + 1) s
drop-char_at [] j h = elim h [ ]
drop-char_at (x ∷ s) zero h = refl
drop-char_at (x ∷ s) (suc j) h =
    let e : suc j + 1 ≡ suc (j + 1) = omega arith in rw e (drop-char_at s j (omega arith))

pub drop-append : (pre r : Bytes) → drop (length pre) (pre ++ r) ≡ r
drop-append [] r = refl
drop-append (x ∷ pre) r = drop-append pre r

-- One byte passes from the text to what was read of it.
pub length-snoc : (pre : Bytes) (x : ℕ) → length (pre ++ (x ∷ [])) ≡ length pre + 1
length-snoc pre x = length-append pre (x ∷ [])

pub append-snoc : (pre r : Bytes) (x : ℕ) → pre ++ (x ∷ r) ≡ (pre ++ (x ∷ [])) ++ r
append-snoc [] r x = refl
append-snoc (y ∷ pre) r x = ap (◌∷◌ y) (append-snoc pre r x)

pub drop-append_add : (pre r : Bytes) (k n : ℕ) → k ≡ length pre + n → drop k (pre ++ r) ≡ drop n r
drop-append_add [] r k n e = let f : k ≡ n = omega arith in rw f
drop-append_add (x ∷ pre) r zero n e = absurd (omega arith)
drop-append_add (x ∷ pre) r (suc k) n e = drop-append_add pre r k n (omega arith)

pub length-erase_pos : (s : Bytes) (i n : ℕ) → 0 < i → 0 < length s → 0 < length (erase s i n)
unfolding erase
length-erase_pos s i n h k =
    omega (arith, length-append (take i s) (drop n (drop i s)), length-take i s)

pub ne-nil-pos : (s : Bytes) → 0 < length s → s ≢ []
ne-nil-pos [] h = elim h [ ]
ne-nil-pos (c ∷ r) h = λ e. cc

pub pos-ne-nil : (s : Bytes) → s ≢ [] → 0 < length s
pos-ne-nil [] h = absurd (h refl)
pos-ne-nil (c ∷ r) h = omega arith
