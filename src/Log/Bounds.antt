-- ===== src/Log/Bounds.antt =====
-- The dump of src/log.cpp stays inside of its buffer.
use greensql_fw.Base.{
  ◌>>=◌, ℕ, zero, suc, ◌+◌, ◌*◌, ◌/◌, ◌%◌, ◌≤◌, ◌<◌, not, ltb, ◌==◌, if◌then◌else◌, Bytes, [], ◌∷◌,
  List, Option, some, length, set, take, drop, length-set, length-take, ==_iff, ◌≡◌, refl, ◌∙◌, ap,
  arith, Bool-cases, inl, inr, lt→ltb,
}
use greensql_fw.Normalization.Loops.{skip_while}
use greensql_fw.Log.{store, text_loop, hex_loop, blanks, printline, hex_lines, loghex}

-- A result, with the size of the buffer kept.
abbrev IsStored : ℕ → Option Bytes → Type 0
IsStored n o = (t : Bytes) × (o ≡ some t) × (length t ≡ n)

store-IsStored :
    (temp : Bytes) (i c : ℕ) → i < length temp → IsStored (length temp) (store temp i c)
unfolding store
store-IsStored temp i c h = (set temp i c, rw (lt→ltb i (length temp) h), length-set temp i c)

bind-IsStored :
    (n : ℕ) (o : Option Bytes) (f : Bytes → Option Bytes)
    → IsStored n o
    → ((t : Bytes) → length t ≡ n → IsStored n (f t))
    → IsStored n (o >>= f)
bind-IsStored n o f (t, e, l) k = let (u, g, m) = k t l in (u, ap (λ o. o >>= f) e ∙ g, m)

store_at : (n i c : ℕ) (temp : Bytes) → length temp ≡ n → i < n → IsStored n (store temp i c)
store_at n i c temp l h =
    let (t, e, m) = store-IsStored temp i c (omega (arith, h, l)) in (t, e, m ∙ l)

text_loop-IsStored :
    (n : ℕ) (bytes temp : Bytes) (j : ℕ)
    → length temp ≡ n
    → j + length bytes ≤ n
    → IsStored n (text_loop bytes temp j)
unfolding text_loop
text_loop-IsStored n [] temp j l h = (temp, refl, l)
text_loop-IsStored n (b ∷ bytes) temp j l h =
    bind-IsStored n (store temp j _) _ (store_at n j _ temp l (omega (arith, h)))
      (λ t m. text_loop-IsStored n bytes t (j + 1) m (omega (arith, h)))

hex_loop-IsStored :
    (n : ℕ) (bytes temp : Bytes) (j : ℕ)
    → length temp ≡ n
    → 20 + (j + length bytes) * 3 ≤ n
    → IsStored n (hex_loop bytes temp j)
unfolding hex_loop
hex_loop-IsStored n [] temp j l h = (temp, refl, l)
hex_loop-IsStored n (b ∷ bytes) temp j l h =
    bind-IsStored n (store temp (20 + j * 3) _) _
      (store_at n (20 + j * 3) _ temp l (omega (arith, h)))
      (λ t m.
        bind-IsStored n (store t (20 + j * 3 + 1) _) _
          (store_at n (20 + j * 3 + 1) _ t m (omega (arith, h)))
          (λ u k. hex_loop-IsStored n bytes u (j + 1) k (omega (arith, h))))

printline_total :
    (bytes : Bytes) → length bytes ≤ 78 → (line : Bytes) × (printline bytes ≡ some line)
unfolding printline
printline_total bytes h =
    let empty = set (blanks 256) 255 0 in
    let size : length empty ≡ 256 = refl in
    let (a, ea, la) = text_loop-IsStored 256 bytes empty 0 size (omega (arith, h)) in
    let (b, eb, lb) = store_at 256 18 b'|' a la (omega arith) in
    let (c, ec, lc) = hex_loop-IsStored 256 bytes b 0 lb (omega (arith, h)) in
    let (d, ed, ld) = store_at 256 (20 + length bytes * 3) b'\n' c lc (omega (arith, h)) in
    let (e, ee, le) = store_at 256 (20 + length bytes * 3 + 1) 0 d ld (omega (arith, h)) in
    (take (skip_while (λ c. not (c == 0)) e 0) e, rw (ea, eb, ec, ed, ee))

hex_lines_total :
    (lines ord : ℕ) (bytes : Bytes)
    → ord ≤ 16
    → (out : List Bytes) × (hex_lines lines ord bytes ≡ some out)
      × (length out ≡ lines + (if ltb 0 ord then 1 else 0))
unfolding hex_lines
hex_lines_total zero ord bytes h =
    let (line, e) = printline_total (take ord bytes) (omega (arith, h, length-take ord bytes)) in
    elim (Bool-cases (ltb 0 ord)) [
      | inl some_left ↦ (line ∷ [], rw (some_left, e), rw some_left)
      | inr none_left ↦ ([], rw none_left, rw none_left)
    ]
hex_lines_total (suc lines) ord bytes h =
    let (line, e) = printline_total (take 16 bytes) (omega (arith, length-take 16 bytes)) in
    let (rest, g, l) = hex_lines_total lines ord (drop 16 bytes) h in
    (line ∷ rest, rw (e, g), omega (arith, l))

-- The dump of any data returns: no write leaves the buffer of 256 bytes. It writes nothing where the
-- level is too high, else one line for each 16 bytes that are begun.
pub loghex_lines :
    (log_level type : ℕ) (bytes : Bytes)
    → (out : List Bytes) × (loghex log_level type bytes ≡ some out)
      × (length out ≡ (if ltb log_level type then 0 else (length bytes + 15) / 16))
unfolding loghex
loghex_lines log_level type bytes =
    let size = length bytes in
    let ord = size * 16 % 256 / 16 in
    let (out, e, l) = hex_lines_total (size / 16) ord bytes (omega arith) in
    elim (Bool-cases (size == 0)) [
      | inl empty ↦
          let none_left : (size + 15) / 16 ≡ 0 = omega (arith, (==_iff size 0).0 empty) in
          ([], rw empty, rw none_left (ground arith))
      | inr bytes_left ↦ elim (Bool-cases (ltb log_level type)) [
        | inl high ↦ ([], rw (bytes_left, high), rw high)
        | inr low ↦
            let count : size / 16 + (if ltb 0 ord then 1 else 0) ≡ (size + 15) / 16 =
              ground arith in
            (out, rw (bytes_left, low) e, rw low (l ∙ count))
      ]
    ]
