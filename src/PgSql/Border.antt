-- ===== src/PgSql/Border.antt =====
-- The packets in a buffer of src/pgsql/pgsql_con.cpp.
use greensql_fw.Base.{ℕ, ◌+◌, ◌%◌, ◌≤◌, ◌<◌, Bytes, length, ◌≡◌, arith, lt→ltb}
use greensql_fw.PgSql.State.{u64_mod, be32, packet_size}

-- The places between the packets of a text: the sizes that the packets name lead from one to the
-- next, and each packet is there as a whole.
pub data Border (bytes : Bytes) : ℕ → Type 0 where
  start : Border bytes 0
  behind :
      {i : ℕ}
      → Border bytes i
      → i + (be32 bytes (i + 1) + 1) ≤ length bytes
      → Border bytes (i + (be32 bytes (i + 1) + 1))

pub Border-le : {bytes : Bytes} {i : ℕ} → Border bytes i → i ≤ length bytes
Border-le start = omega arith
Border-le (behind b h) = h

-- Each packet names a size that is positive as an int, with one added, and the text is not huge.
abbrev pub IsSane : Bytes → Type 0
IsSane bytes =
    ((i : ℕ) → Border bytes i → be32 bytes (i + 1) < 2147483647) × (length bytes < 4294967296)

pub packet_size-sane :
    (bytes : Bytes) (i : ℕ)
    → IsSane bytes
    → Border bytes i
    → packet_size bytes i ≡ be32 bytes (i + 1) + 1
unfolding packet_size
packet_size-sane bytes i (small, l) b =
    let field = small i b in
    let sum : (be32 bytes (i + 1) + 1) % 4294967296 ≡ be32 bytes (i + 1) + 1 =
      omega (arith, field) in
    rw (sum, lt→ltb (be32 bytes (i + 1) + 1) 2147483648 (omega (arith, field)))

-- The sum of the loops does not wrap round.
pub sum-sane :
    (bytes : Bytes) (i : ℕ)
    → IsSane bytes
    → Border bytes i
    → (i + packet_size bytes i) % u64_mod ≡ i + (be32 bytes (i + 1) + 1)
sum-sane bytes i (small, l) b =
    let field = small i b in
    omega (arith, field, Border-le b, packet_size-sane bytes i (small, l) b)
