-- ===== src/Normalization/Quotes/Literals.antt =====
-- What removeQuotedText leaves of quoted literals (src/normalization.cpp).
use greensql_fw.Base.{
  ℕ, Bool, true, false, not, ◌&&◌, ◌||◌, ◌==◌, Bytes, [], ◌∷◌, ◌++◌, ◌≡◌, ◌≢◌, refl, sym, ap, ◌∙◌,
  arith, append_assoc,
}
use greensql_fw.Normalization.Quotes.{remove_quoted_text}
use greensql_fw.Normalization.Quotes.Machine.{
  Mode, outside, inside, closing, scan, next, output, IsQuote, remove_quoted_text-scan,
}

-- The text between two delimiters `d`: any bytes but `d` and the backslash, escaped bytes, and
-- doubled delimiters.
pub data LiteralText (d : ℕ) : Bytes → Type 0 where
  end : LiteralText d []
  byte :
      {c : ℕ} {r : Bytes}
      → (c == d) ≡ false
      → (c == b'\\') ≡ false
      → LiteralText d r
      → LiteralText d (c ∷ r)
  escaped : {b c : ℕ} {r : Bytes} → b ≡ b'\\' → LiteralText d r → LiteralText d (b ∷ c ∷ r)
  doubled : {c e : ℕ} {r : Bytes} → c ≡ d → e ≡ d → LiteralText d r → LiteralText d (c ∷ e ∷ r)

scan-literal :
    {d : ℕ} {lit : Bytes} (rest : Bytes)
    → IsQuote d
    → LiteralText d lit
    → scan (inside d false) (lit ++ rest) ≡ scan (inside d false) rest
unfolding scan
scan-literal rest k end = refl
scan-literal {d} rest k (byte {c} {r} h e t) = ground (arith, scan-literal rest k t)
scan-literal {d} rest k (escaped {b} {c} {r} e t) = ground (arith, scan-literal rest k t)
scan-literal {d} rest k (doubled {c} {e} {r} p q t) = ground (arith, scan-literal rest k t)

-- The mode in which the machine is behind a text.
unfoldable pub after : Mode → Bytes → Mode
after m [] = m
after m (c ∷ r) = after (next m c) r

scan-append : (m : Mode) (a b : Bytes) → scan m (a ++ b) ≡ scan m a ++ scan (after m a) b
unfolding scan after
scan-append m [] b = refl
scan-append m (c ∷ a) b = rw (scan-append (next m c) a b) (sym (append_assoc (output m c) _ _))

next-IsQuote : (d : ℕ) → IsQuote d → next (outside false) d ≡ inside d false
next-IsQuote d k = ground arith

remove_quoted_text-append :
    (pre post : Bytes) (d : ℕ) (lit : Bytes)
    → IsQuote d
    → after (outside false) pre ≡ outside false
    → LiteralText d lit
    → remove_quoted_text (pre ++ (d ∷ (lit ++ (d ∷ post))))
      ≡ scan (outside false) pre ++ (output (outside false) d ++ scan (inside d false) (d ∷ post))
unfolding scan
remove_quoted_text-append pre post d lit k m t =
    rw (remove_quoted_text-scan, scan-append (outside false) pre, m)
      (ap (λ x. scan (outside false) pre ++ (output (outside false) d ++ x))
        (ap (λ x. scan x (lit ++ (d ∷ post))) (next-IsQuote d k) ∙ scan-literal (d ∷ post) k t))

-- Whatever a quoted literal holds, the query is rewritten in the same way: queries that differ in
-- one literal only have one pattern. The literal begins where the text before it leaves no literal
-- open, no escape, and no delimiter that might be doubled.
pub remove_quoted_text_literal :
    (pre post : Bytes) (d : ℕ) (lit lit' : Bytes)
    → IsQuote d
    → after (outside false) pre ≡ outside false
    → LiteralText d lit
    → LiteralText d lit'
    → remove_quoted_text (pre ++ (d ∷ (lit ++ (d ∷ post))))
      ≡ remove_quoted_text (pre ++ (d ∷ (lit' ++ (d ∷ post))))
remove_quoted_text_literal pre post d lit lit' k m t t' =
    remove_quoted_text-append pre post d lit k m t
    ∙ sym (remove_quoted_text-append pre post d lit' k m t')

-- Each quote of the text stands behind a backslash. The flag is set behind a backslash.
abbrev pub unquoted : Bool → Bytes → Bool
unquoted quoted [] = true
unquoted quoted (c ∷ r) =
    (quoted || not (c == b'\'' || c == b'"')) && unquoted (c == b'\\' && not quoted) r

abbrev pub flag : Mode → Bool
flag (outside quoted) = quoted
flag _ = false

scan-unquoted : (m : Mode) (r : Bytes) → unquoted (flag m) (scan m r) ≡ true
unfolding scan
scan-unquoted m [] = refl
scan-unquoted (outside quoted) (c ∷ r) = ground (
  arith,
  scan-unquoted (outside (c == b'\\' && not quoted)) r,
  scan-unquoted (inside b'\'' false) r,
  scan-unquoted (inside b'"' false) r,
)
scan-unquoted (inside d quoted) (c ∷ r) =
    ground
      (arith, scan-unquoted (closing d) r, scan-unquoted (inside d (c == b'\\' && not quoted)) r)
scan-unquoted (closing d) (c ∷ r) = ground (
  arith,
  scan-unquoted (inside d false) r,
  scan-unquoted (outside (c == b'\\')) r,
  scan-unquoted (inside b'\'' false) r,
  scan-unquoted (inside b'"' false) r,
)

-- Quotes stand behind a backslash only.
remove_quoted_text-unquoted : (query : Bytes) → unquoted false (remove_quoted_text query) ≡ true
remove_quoted_text-unquoted query =
    rw (remove_quoted_text-scan query) (scan-unquoted (outside false) query)

scan-unquoted_text :
    (quoted : Bool) (r : Bytes) → unquoted quoted r ≡ true → scan (outside quoted) r ≡ r
unfolding scan
scan-unquoted_text quoted [] h = refl
scan-unquoted_text quoted (c ∷ r) h =
    ground (arith, scan-unquoted_text (c == b'\\' && not quoted) r)

-- Each quote that removeQuotedText leaves in the text stands behind a backslash that is not itself
-- escaped, and removeQuotedText changes nothing in its own result.
pub remove_quoted_text_idem :
    (query : Bytes)
    → (unquoted false (remove_quoted_text query) ≡ true)
      × (remove_quoted_text (remove_quoted_text query) ≡ remove_quoted_text query)
remove_quoted_text_idem query =
    let free = remove_quoted_text-unquoted query in
    (
      free,
      remove_quoted_text-scan (remove_quoted_text query)
          ∙ scan-unquoted_text false (remove_quoted_text query) free,
    )

scan-ne-nil : (quoted : Bool) (r : Bytes) → r ≢ [] → scan (outside quoted) r ≢ []
unfolding scan
scan-ne-nil quoted [] h = λ e. h refl
scan-ne-nil quoted (c ∷ r) h = ground arith

-- A query never becomes empty here.
pub remove_quoted_text-ne-nil : (query : Bytes) → query ≢ [] → remove_quoted_text query ≢ []
remove_quoted_text-ne-nil query h = rw (remove_quoted_text-scan query) (scan-ne-nil false query h)
