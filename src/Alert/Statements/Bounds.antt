-- ===== src/Alert/Statements/Bounds.antt =====
-- Which statements of src/alert.cpp fit their buffers.
use greensql_fw.Base.{
  ℕ, zero, suc, ◌+◌, ◌-◌, ◌≤◌, ◌<◌, Bytes, [], ◌∷◌, length, take, length-take, length-append, ◌≡◌,
  ◌↔◌, refl, ap, arith,
}
use greensql_fw.Misc.{digits_text}
use greensql_fw.Misc.Decimal.{length-digits_text}
use greensql_fw.Driver.Escape.{strlen}
use greensql_fw.Alert.{AlertRow}
use greensql_fw.Alert.Statements.{
  c_str, int_text, snprintf, select_text, insert_text, select_statement, insert_statement,
  alert_text, alert_statement,
}

take-long : (n : ℕ) (s : Bytes) → length s ≤ n → take n s ≡ s
take-long zero [] h = refl
take-long zero (c ∷ s) h = absurd (omega (arith, h))
take-long (suc n) [] h = refl
take-long (suc n) (c ∷ s) h = ap (λ r. c ∷ r) (take-long n s (omega (arith, h)))

-- A text is not cut exactly if it fits.
snprintf_iff : (size : ℕ) (text : Bytes) → (snprintf (size + 1) text ≡ text) ↔ (length text ≤ size)
snprintf_iff size text =
    let less : size + 1 - 1 ≡ size = omega arith in
    (
      λ e. omega (arith, less, length-take (size + 1 - 1) text, ap length e),
      λ h. rw less (take-long size text h),
    )

length-itoa32 : (n : ℕ) → n < 4294967296 → length (digits_text n) ≤ 10
length-itoa32 n h = length-digits_text 9 n (omega (arith, h))

length-c_str : (s : Bytes) → length (c_str s) ≤ length s
length-c_str s = omega (arith, length-take (strlen s) s)

length-alert_text :
    (row : AlertRow)
    → length (alert_text row)
      ≡ 114
        + length (digits_text row.agroupid)
        + length (int_text row.risk)
        + length (digits_text row.block)
        + length row.db_user
        + length row.db_user_ip
        + (length row.query + length row.reason)
unfolding alert_text
length-alert_text row = grind (arith, length-append)

length-select_text :
    (proxy_id : ℕ) (db_name pattern : Bytes)
    → length (select_text proxy_id db_name pattern)
      ≡ 83 + length (digits_text proxy_id) + length (c_str db_name) + length (c_str pattern)
unfolding select_text
length-select_text proxy_id db_name pattern = grind (arith, length-append)

length-insert_text :
    (proxy_id : ℕ) (db_name pattern : Bytes)
    → length (insert_text proxy_id db_name pattern)
      ≡ 86 + length (digits_text proxy_id) + length (c_str db_name) + length (c_str pattern)
unfolding insert_text
length-insert_text proxy_id db_name pattern = grind (arith, length-append)

-- The statements on a group of alerts are written as a whole, for every 32-bit number of a proxy and
-- whatever the name of the database and the pattern hold.
group_statements_whole :
    (proxy_id : ℕ) (db_name pattern : Bytes)
    → proxy_id < 4294967296
    → (select_statement proxy_id db_name pattern ≡ select_text proxy_id db_name pattern)
      × (insert_statement proxy_id db_name pattern ≡ insert_text proxy_id db_name pattern)
unfolding select_statement insert_statement
group_statements_whole proxy_id db_name pattern h =
    let size = length pattern + length db_name + 1024 - 1 in
    let digits = length-itoa32 proxy_id h in
    let name = length-c_str db_name in
    let text = length-c_str pattern in
    (
      take-long size (select_text proxy_id db_name pattern)
          (omega (arith, length-select_text proxy_id db_name pattern, digits, name, text)),
      take-long size (insert_text proxy_id db_name pattern)
          (omega (arith, length-insert_text proxy_id db_name pattern, digits, name, text)),
    )

-- The statement of an alert is written as a whole exactly if the name and the address of the user,
-- with the numbers, have not more than 909 bytes, whatever the query and the reason.
pub alert_statement_iff :
    (row : AlertRow)
    → (alert_statement row ≡ alert_text row) ↔ (
        length row.db_user
          + length row.db_user_ip
          + length (digits_text row.agroupid)
          + length (int_text row.risk)
          + length (digits_text row.block)
        ≤ 909)
unfolding alert_statement
alert_statement_iff row =
    let size = length row.query + length row.reason + 1023 in
    let room : length row.query + length row.reason + 1024 ≡ size + 1 = omega arith in
    let (cut, whole) = snprintf_iff size (alert_text row) in
    let text = length-alert_text row in
    rw room (λ e. omega (arith, cut e, text), λ h. whole (omega (arith, h, text)))
