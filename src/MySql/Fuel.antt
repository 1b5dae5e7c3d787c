-- ===== src/MySql/Fuel.antt =====
-- The fuel of the loop over packets of src/mysql/mysql_con.cpp.
use greensql_fw.Base.{
  bind-ext, ℕ, zero, suc, ◌+◌, ◌≤◌, ◌<◌, Bool, false, ◌||◌, Bytes, length, ◌≡◌, arith,
}
use greensql_fw.MySql.{packet_loop}
use greensql_fw.Connection.Server.{Server}
use greensql_fw.MySql.State.{MySqlConnection, packet_size}
use greensql_fw.MySql.Command.{parse_request_packet}

packet_loop-fuel :
    (fuel k : ℕ) (server : Server) (bytes : Bytes) (s : MySqlConnection) (has : Bool) (start : ℕ)
    → start < length bytes
    → length bytes ≤ start + fuel
    → packet_loop (fuel + k) server bytes s has start ≡ packet_loop fuel server bytes s has start
unfolding packet_loop
packet_loop-fuel zero k server bytes s has start h l = absurd (omega arith)
packet_loop-fuel (suc fuel) k server bytes s has start h l =
    let more : suc fuel + k ≡ suc (fuel + k) = omega arith in
    rw more (
      bind-ext (parse_request_packet server s bytes (packet_size bytes)) _ _ (λ (next, answered).
        ground (
          arith,
          packet_loop-fuel fuel k server bytes next (has || answered) (start + packet_size bytes),
        )))

-- The fuel that parseRequest is modelled with is enough: on a buffer that is not empty, more fuel
-- changes nothing in what the loop over the packets does.
pub packet_loop_enough :
    (k : ℕ) (server : Server) (bytes : Bytes) (s : MySqlConnection)
    → 1 ≤ length bytes
    → packet_loop (length bytes + k) server bytes s false 0
      ≡ packet_loop (length bytes) server bytes s false 0
packet_loop_enough k server bytes s h =
    packet_loop-fuel (length bytes) k server bytes s false 0 h (omega arith)
