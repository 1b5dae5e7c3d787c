-- ===== src/Connection/Literal.antt =====
-- A query of the whitelist with another value in a quoted literal (src/connection.cpp with
-- src/normalization.cpp).
use mathlib.Core.List.{map-append}
use greensql_fw.Base.{ℕ, true, false, ◌==◌, Bytes, [], ◌∷◌, ◌++◌, some, ◌≡◌, ◌∙◌, ap, arith}
use greensql_fw.Misc.{str_lowercase, to_lower}
use greensql_fw.Normalization.Quotes.Machine.{outside, IsQuote}
use greensql_fw.Normalization.Quotes.Literals.{LiteralText, end, byte, escaped, doubled, after}
use greensql_fw.Normalization.Pattern.{normalize_query}
use greensql_fw.Normalization.Pattern.Total.{normalize_query_literal}
use greensql_fw.Connection.{Context, outcome, check_query, decide, is_whitelisted}

to_lower-quote : (d c : ℕ) → IsQuote d → (c == d) ≡ false → (to_lower c == d) ≡ false
unfolding to_lower
to_lower-quote d c k h = ground arith

to_lower-backslash : (c : ℕ) → (c == b'\\') ≡ false → (to_lower c == b'\\') ≡ false
unfolding to_lower
to_lower-backslash c h = ground arith

to_lower-IsQuote : (d : ℕ) → IsQuote d → to_lower d ≡ d
unfolding to_lower
to_lower-IsQuote d k = ground arith

to_lower-eq_backslash : (c : ℕ) → c ≡ b'\\' → to_lower c ≡ b'\\'
unfolding to_lower
to_lower-eq_backslash c e = ground arith

str_lowercase-LiteralText :
    {d : ℕ} {lit : Bytes} → IsQuote d → LiteralText d lit → LiteralText d (str_lowercase lit)
unfolding str_lowercase
str_lowercase-LiteralText k end = end
str_lowercase-LiteralText {d} k (byte {c} h e t) =
    byte (to_lower-quote d c k h) (to_lower-backslash c e) (str_lowercase-LiteralText k t)
str_lowercase-LiteralText k (escaped {b} e t) =
    escaped (to_lower-eq_backslash b e) (str_lowercase-LiteralText k t)
str_lowercase-LiteralText {d} k (doubled {c} {e} p q t) =
    doubled (ap to_lower p ∙ to_lower-IsQuote d k) (ap to_lower q ∙ to_lower-IsQuote d k)
      (str_lowercase-LiteralText k t)

str_lowercase-literal :
    (pre lit post : Bytes) (d : ℕ)
    → IsQuote d
    → str_lowercase (pre ++ (d ∷ (lit ++ (d ∷ post))))
      ≡ str_lowercase pre ++ (d ∷ (str_lowercase lit ++ (d ∷ str_lowercase post)))
unfolding str_lowercase
str_lowercase-literal pre lit post d k = simp (map-append, to_lower-IsQuote d k)

-- Where the pattern of a query is in the whitelist, every query that differs from it in the text of
-- one quoted literal only passes without an entry in any log, whatever stands in the literal. The
-- literal begins where the text before it leaves no literal open, no escape, and no delimiter that
-- might be doubled; within it a delimiter is doubled or escaped.
pub whitelisted_literal :
    (c : Context) (pre post : Bytes) (d : ℕ) (lit lit' pattern : Bytes)
    → IsQuote d
    → after (outside false) (str_lowercase pre) ≡ outside false
    → LiteralText d lit
    → LiteralText d lit'
    → normalize_query c.db_type (str_lowercase (pre ++ (d ∷ (lit ++ (d ∷ post))))) ≡ some pattern
    → is_whitelisted c pattern ≡ true
    → check_query c (pre ++ (d ∷ (lit' ++ (d ∷ post)))) ≡ some (outcome true pattern [])
unfolding check_query
whitelisted_literal c pre post d lit lit' pattern k m t t' e w =
    let same : normalize_query c.db_type (str_lowercase (pre ++ (d ∷ (lit' ++ (d ∷ post)))))
        ≡ some pattern =
      rw (str_lowercase-literal pre lit' post d k) (
        normalize_query_literal c.db_type (str_lowercase pre) (str_lowercase post) d
          (str_lowercase lit') (str_lowercase lit) k m (str_lowercase-LiteralText k t')
          (str_lowercase-LiteralText k t)
        ∙ (rw (str_lowercase-literal pre lit post d k) at e)) in
    rw (same, check_query) (unfold decide in rw w)
