-- ===== src/Parser/Flags.antt =====
-- The fields of the risk against the calls of the grammar (src/parser/parser.cpp).
use greensql_fw.Base.{Bool, true, false, ◌||◌, Bytes, [], ◌∷◌, List, ◌≡◌, ◌∙◌, arith}
use greensql_fw.Connection.{QueryRisk}
use greensql_fw.Parser.{
  Callback, Tables, found_or_token, found_union_token, found_empty_pwd, found_comment,
  found_tautology, found_query_separator, found_bruteforce_function, found_table,
  check_bruteforce_function, is_s_table, is_bruteforce_function, no_risk, call_back, call_all,
  query_parse,
}

abbrev pub any : (Callback → Bool) → List Callback → Bool
any p [] = false
any p (c ∷ calls) = p c || any p calls

-- Which calls set each field.
pub sets_or : Callback → Bool
sets_or found_or_token = true
sets_or _ = false

pub sets_union : Callback → Bool
sets_union found_union_token = true
sets_union _ = false

pub sets_empty_pwd : Callback → Bool
sets_empty_pwd found_empty_pwd = true
sets_empty_pwd _ = false

pub sets_comment : Callback → Bool
sets_comment found_comment = true
sets_comment _ = false

pub sets_tautology : Callback → Bool
sets_tautology found_tautology = true
sets_tautology _ = false

pub sets_separator : Callback → Bool
sets_separator found_query_separator = true
sets_separator _ = false

pub sets_s_table : Tables → Callback → Bool
sets_s_table t (found_table s) = is_s_table t s
sets_s_table t _ = false

pub sets_bruteforce : Tables → Callback → Bool
sets_bruteforce t found_bruteforce_function = true
sets_bruteforce t (check_bruteforce_function s) = is_bruteforce_function t s
sets_bruteforce t _ = false

-- A field that each call sets or leaves is set in the end if it was set before or by a call.
call_all-field :
    (t : Tables) (field : QueryRisk → Bool) (sets : Callback → Bool)
    → ((r : QueryRisk) (c : Callback) → field (call_back t r c) ≡ (field r || sets c))
    → (r : QueryRisk) (calls : List Callback)
    → field (call_all t r calls) ≡ (field r || any sets calls)
unfolding call_all
call_all-field t field sets step r [] = ground arith
call_all-field t field sets step r (c ∷ calls) =
    call_all-field t field sets step (call_back t r c) calls ∙ rw (step r c) (ground arith)

step_or :
    (t : Tables) (r : QueryRisk) (c : Callback) → (call_back t r c).has_or ≡ (r.has_or || sets_or c)
unfolding call_back sets_or
step_or t r _ = ground arith

step_union :
    (t : Tables) (r : QueryRisk) (c : Callback)
    → (call_back t r c).has_union ≡ (r.has_union || sets_union c)
unfolding call_back sets_union
step_union t r _ = ground arith

step_empty_pwd :
    (t : Tables) (r : QueryRisk) (c : Callback)
    → (call_back t r c).has_empty_pwd ≡ (r.has_empty_pwd || sets_empty_pwd c)
unfolding call_back sets_empty_pwd
step_empty_pwd t r _ = ground arith

step_comment :
    (t : Tables) (r : QueryRisk) (c : Callback)
    → (call_back t r c).has_comment ≡ (r.has_comment || sets_comment c)
unfolding call_back sets_comment
step_comment t r _ = ground arith

step_tautology :
    (t : Tables) (r : QueryRisk) (c : Callback)
    → (call_back t r c).has_tautology ≡ (r.has_tautology || sets_tautology c)
unfolding call_back sets_tautology
step_tautology t r _ = ground arith

step_separator :
    (t : Tables) (r : QueryRisk) (c : Callback)
    → (call_back t r c).has_separator ≡ (r.has_separator || sets_separator c)
unfolding call_back sets_separator
step_separator t r _ = ground arith

step_s_table :
    (t : Tables) (r : QueryRisk) (c : Callback)
    → (call_back t r c).has_s_table ≡ (r.has_s_table || sets_s_table t c)
unfolding call_back sets_s_table
step_s_table t r _ = ground arith

step_bruteforce :
    (t : Tables) (r : QueryRisk) (c : Callback)
    → (call_back t r c).has_bruteforce_function ≡ (r.has_bruteforce_function || sets_bruteforce t c)
unfolding call_back sets_bruteforce
step_bruteforce t r _ = ground arith

-- query_parse sets each field exactly if the grammar makes a call that sets it: a sensitive table is
-- one that its patterns match, where its weight is not negative, and a bruteforce function is one
-- that the grammar knows itself or that the patterns for those match. The order of the calls does
-- not count, nor how often they are made.
pub query_parse-fields :
    (scan_buffer : Bytes → List Callback) (t : Tables) (q : Bytes)
    → let risk = query_parse scan_buffer t q in
      let calls = scan_buffer q in
      (risk.has_or ≡ any sets_or calls)
      × (risk.has_union ≡ any sets_union calls)
      × (risk.has_empty_pwd ≡ any sets_empty_pwd calls)
      × (risk.has_comment ≡ any sets_comment calls)
      × (risk.has_tautology ≡ any sets_tautology calls)
      × (risk.has_separator ≡ any sets_separator calls)
      × (risk.has_s_table ≡ any (sets_s_table t) calls)
      × (risk.has_bruteforce_function ≡ any (sets_bruteforce t) calls)
unfolding query_parse
query_parse-fields scan_buffer t q =
    let calls = scan_buffer q in
    (
      call_all-field t (λ r. r.has_or) sets_or (step_or t) no_risk calls,
      call_all-field t (λ r. r.has_union) sets_union (step_union t) no_risk calls,
      call_all-field t (λ r. r.has_empty_pwd) sets_empty_pwd (step_empty_pwd t) no_risk calls,
      call_all-field t (λ r. r.has_comment) sets_comment (step_comment t) no_risk calls,
      call_all-field t (λ r. r.has_tautology) sets_tautology (step_tautology t) no_risk calls,
      call_all-field t (λ r. r.has_separator) sets_separator (step_separator t) no_risk calls,
      call_all-field t (λ r. r.has_s_table) (sets_s_table t) (step_s_table t) no_risk calls,
      call_all-field t (λ r. r.has_bruteforce_function) (sets_bruteforce t) (step_bruteforce t)
          no_risk calls,
    )
