-- ===== src/Buffer.antt =====
-- Buffer of src/buffer.hpp and src/buffer.cpp, as the text that it holds. A size is that of a text;
-- the tests for a negative size are those for 0.
pub mod Fifo
use greensql_fw.Base.{ℕ, Bool, ◌++◌, if◌then◌else◌, ◌==◌, Bytes, length, take, erase}

-- `append(data, size)`: the first `size` bytes behind `data`.
unfoldable pub append : Bytes → Bytes → ℕ → Bytes
append buff bytes size = if size == 0 then buff else buff ++ take size bytes

unfoldable pub chop_back : Bytes → ℕ → Bytes
unfolding erase
chop_back buff size = if size == 0 then buff else erase buff 0 size

-- What `pop` leaves in `res` and in the buffer.
unfoldable pub pop : Bytes → Bytes → ℕ → Bool → Bytes × Bytes
unfolding erase
pop buff res size appendval =
    (if appendval then res ++ take size buff else take size buff, erase buff 0 size)
