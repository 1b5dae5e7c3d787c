-- ===== src/Config/Load.antt =====
-- Which settings of the file reach the configuration (src/config.cpp).
use greensql_fw.Base.{
  if◌then◌else◌, Bool, true, false, ◌&&◌, Bytes, [], ◌∷◌, List, some, equal, equal_iff, codes, take,
  ◌≡◌, refl, ◌∙◌, arith, Bool-cases, Option-cases, inl, inr,
}
use greensql_fw.Base.Int.{pos}
use greensql_fw.Misc.{parse_conf_line, str_lowercase, prefix_length, is_key_byte, trim_str}
use greensql_fw.Config.{
  GreenSqlConfig, init, parse_re_setting, parse_setting, parse_db_setting, parse_log_setting,
  load_line, load_lines, load,
}

-- The bytes of a key, in any case.
all_key_bytes : Bytes → Bool
all_key_bytes [] = true
all_key_bytes (c ∷ s) = is_key_byte c && all_key_bytes s

take-prefix_length : (s : Bytes) → all_key_bytes (take (prefix_length is_key_byte s) s) ≡ true
unfolding all_key_bytes prefix_length
take-prefix_length [] = refl
take-prefix_length (c ∷ s) = ground (arith, take-prefix_length s)

str_lowercase-key : (s : Bytes) → all_key_bytes s ≡ true → all_key_bytes (str_lowercase s) ≡ true
unfolding all_key_bytes str_lowercase
str_lowercase-key [] h = refl
str_lowercase-key (c ∷ s) h = ground (arith, str_lowercase-key s)

parse_conf_line-key :
    (line k v : Bytes) → parse_conf_line line ≡ some (k, v) → all_key_bytes k ≡ true
unfolding parse_conf_line
parse_conf_line-key line k v e = ground (arith, take-prefix_length line)

-- A key with a blank is no key of a line.
bruteforce-not-key :
    (s : Bytes) → all_key_bytes s ≡ true → equal s (codes "risk bruteforce") ≡ false
unfolding all_key_bytes
bruteforce-not-key s h = elim (Bool-cases (equal s (codes "risk bruteforce"))) [
  | inr no_key ↦ no_key
  | inl is_key ↦
      let e : false ≡ true = rw ((equal_iff s (codes "risk bruteforce")).0 is_key) at h in cc
]

abbrev IsKept {ℓ} : (GreenSqlConfig → Type ℓ) → Type ℓ
IsKept P =
    (section key value : Bytes) (c : GreenSqlConfig)
    → all_key_bytes key ≡ true
    → P c
    → P (parse_setting section key value c)

-- What every setting keeps holds of what is loaded, if it holds of the defaults.
module _ {ℓ} (P : GreenSqlConfig → Type ℓ) (kept : IsKept P) where
  load_line-kept :
      (section : Bytes) (c : GreenSqlConfig) (raw section' : Bytes) (c' : GreenSqlConfig)
      → load_line section c raw ≡ some (section', c')
      → P c
      → P c'
  unfolding load_line
  load_line-kept section c raw section' c' e p =
      elim (Option-cases (parse_conf_line (trim_str raw))) [
        | inl bad ↦ ground arith
        | inr ((k, v), good) ↦ ground (
          arith,
          kept section (str_lowercase k) v c
              (str_lowercase-key k (parse_conf_line-key (trim_str raw) k v good)) p,
        )
      ]

  load_lines-kept :
      (section : Bytes) (c : GreenSqlConfig) (lines : List Bytes)
      → P c
      → P (load_lines section c lines).0
  unfolding load_lines
  load_lines-kept section c [] p = p
  load_lines-kept section c (raw ∷ lines) p = elim (Option-cases (load_line section c raw)) [
    | inl bad ↦ rw (bad, load_lines) p
    | inr ((section', c'), good) ↦
        rw (good, load_lines)
          (load_lines-kept section' c' lines (load_line-kept section c raw section' c' good p))
  ]

parse_re_setting-bruteforce :
    (key value : Bytes) (c : GreenSqlConfig)
    → all_key_bytes key ≡ true
    → (parse_re_setting key value c).re_bruteforce ≡ c.re_bruteforce
unfolding parse_re_setting
parse_re_setting-bruteforce key value c h =
    rw (bruteforce-not-key (str_lowercase key) (str_lowercase-key key h)) (ground arith)

parse_setting-bruteforce :
    (section key value : Bytes) (c : GreenSqlConfig)
    → all_key_bytes key ≡ true
    → (parse_setting section key value c).re_bruteforce ≡ c.re_bruteforce
unfolding parse_setting parse_db_setting parse_log_setting
parse_setting-bruteforce section key value c h =
    ground (arith, parse_re_setting-bruteforce key value c h)

-- No file of settings changes the weight of functions that serve to guess the contents of a
-- database: it stays at its default, whatever the lines are, since the key that the code looks for
-- has a blank and the key of a line has none.
load-re_bruteforce :
    (c : GreenSqlConfig) (lines : List Bytes) → (load c (some lines)).0.re_bruteforce ≡ pos 15
unfolding load
load-re_bruteforce c lines =
    load_lines-kept (λ d. d.re_bruteforce ≡ pos 15)
      (λ section key value d h p. parse_setting-bruteforce section key value d h ∙ p) [] init lines
      (unfold init in refl)

IsRunning : GreenSqlConfig → Type 0
IsRunning c = c.b_running ≡ true

if-IsRunning :
    (b : Bool) (c d : GreenSqlConfig) → IsRunning c → IsRunning d → IsRunning (if b then c else d)
if-IsRunning true c d p q = p
if-IsRunning false c d p q = q

parse_db_setting-IsRunning :
    (key value : Bytes) (c : GreenSqlConfig)
    → IsRunning c
    → IsRunning (parse_db_setting key value c)
unfolding parse_db_setting IsRunning
parse_db_setting-IsRunning key value c p = if-IsRunning (equal key (codes "dbname")) _ _ p (
    if-IsRunning (equal key (codes "dbuser")) _ _ p (
      if-IsRunning (equal key (codes "dbpass")) _ _ p (
        if-IsRunning (equal key (codes "dbhost")) _ _ p (
          if-IsRunning (equal key (codes "dbport")) _ _ p
            (if-IsRunning (equal key (codes "dbtype")) _ _ p p)))))

parse_re_setting-IsRunning :
    (key value : Bytes) (c : GreenSqlConfig)
    → IsRunning c
    → IsRunning (parse_re_setting key value c)
unfolding parse_re_setting IsRunning
parse_re_setting-IsRunning key value c p =
    if-IsRunning (equal (str_lowercase key) (codes "block_level")) _ _ p (
      if-IsRunning (equal (str_lowercase key) (codes "warn_level")) _ _ p (
        if-IsRunning (equal (str_lowercase key) (codes "risk_sql_comments")) _ _ p (
          if-IsRunning (equal (str_lowercase key) (codes "risk_senstivite_tables")) _ _ p (
            if-IsRunning (equal (str_lowercase key) (codes "risk_or_token")) _ _ p (
              if-IsRunning (equal (str_lowercase key) (codes "risk_union_token")) _ _ p (
                if-IsRunning (equal (str_lowercase key) (codes "risk_var_cmp_var")) _ _ p (
                  if-IsRunning (equal (str_lowercase key) (codes "risk_always_true")) _ _ p (
                    if-IsRunning (equal (str_lowercase key) (codes "risk_empty_password")) _ _ p (
                      if-IsRunning (equal (str_lowercase key) (codes "risk_multiple_queries")) _ _ p
                        (if-IsRunning (equal (str_lowercase key) (codes "risk bruteforce")) _ _ p
                          p))))))))))

parse_setting-IsRunning :
    (section key value : Bytes) (c : GreenSqlConfig)
    → IsRunning c
    → IsRunning (parse_setting section key value c)
unfolding parse_setting parse_log_setting IsRunning
parse_setting-IsRunning section key value c p =
    if-IsRunning (equal section (codes "database")) _ _ (parse_db_setting-IsRunning key value c p) (
      if-IsRunning (equal section (codes "risk engine")) _ _
        (parse_re_setting-IsRunning key value c p)
        (if-IsRunning (equal section (codes "logging")) _ _
          (if-IsRunning (equal key (codes "loglevel")) _ _ p
            (if-IsRunning (equal key (codes "logfile")) _ _ p p))
          p))

-- What is loaded is set to run.
pub load-b_running :
    (c : GreenSqlConfig) (lines : List Bytes) → (load c (some lines)).0.b_running ≡ true
unfolding load IsRunning
load-b_running c lines =
    load_lines-kept IsRunning
      (λ section key value d h p. parse_setting-IsRunning section key value d p) [] init lines
      (unfold init in refl)
