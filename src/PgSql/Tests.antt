-- ===== src/PgSql/Tests.antt =====
-- Requests and answers of PostgreSQL for src/pgsql/pgsql_con.cpp.
use greensql_fw.Base
use greensql_fw.Base.{
  ℕ, ◌+◌, ◌≤◌, ◌<◌, length, true, false, not, ◌||◌, ◌==◌, Bytes, [], ◌∷◌, ◌++◌, some, codes, take,
  drop, if◌then◌else◌, ◌≡◌, ◌⊎◌, inl, inr, refl, sym, ap, arith,
}
use greensql_fw.Permissions.{new_perm_obj}
use greensql_fw.Connection.{Outcome, check_query}
use greensql_fw.Connection.Samples.{context}
use greensql_fw.Connection.Server.{Server}
use greensql_fw.Connection.Run.{done, endless}
use greensql_fw.PgSql.State.{PgSqlConnection, packet_size, be32}
use greensql_fw.PgSql.{Requests, parse_request, packet_loop}
use greensql_fw.PgSql.Border.{Border, start, behind, IsSane}
use greensql_fw.PgSql.Forward.{parse_request_independent}
use greensql_fw.PgSql.Endless.{hanging, packet_loop_endless}
use greensql_fw.PgSql.Returns.{IsPlain, parse_request_returns}
use greensql_fw.PgSql.Queries.{query_packet, answer, parse_request_sixteen, parse_request_statement}
use greensql_fw.PgSql.Command.{parse_one, is_simple}

abbrev server : Server
server = record {
  context = context;
  map = record { dbs = []; default_db = some new_perm_obj };
  proxy_id = 1;
}

abbrev started : PgSqlConnection
started = record {
  first_request = false;
  first_response = false;
  second_packet = false;
  long_response = false;
  long_response_data = false;
  db_name = codes "shop";
  db_user = codes "web";
  db_options = [];
  proto_version = codes "3.0";
  db = some new_perm_obj;
  original_query = [];
  response_in = [];
  response_out = [];
  actions = [];
}

parse_request_statement_example :
    (o : Outcome) × (check_query (record context { db = new_perm_obj }) (codes "select 1=12")
      ≡ some o)
    × (r : Requests) × (parse_request server started (query_packet (codes "select 1=12")) []
        ≡ done r)
    × (r.request ≡ query_packet (codes "select 1=12"))
    × (r.request_in ≡ [])
    × (r.has_response ≡ not o.allowed)
    × (r.connection.actions ≡ [] ++ o.actions)
    × (r.connection.response_in ≡ answer (o.allowed || true) [])
    × (r.connection.response_out ≡ answer (o.allowed || false) [])
parse_request_statement_example =
    parse_request_statement server started new_perm_obj (codes "select 1=12") refl refl
      (λ h. ground (arith, h)) refl refl (omega arith)

abbrev drop_all : Bytes
drop_all = query_packet (codes "drop shops")

parse_request_sixteen_example :
    parse_request server started drop_all []
    ≡ done
        record { connection = started; request_in = []; request = drop_all; has_response = false }
unfolding packet_size greensql_fw.Base.equal
parse_request_sixteen_example = parse_request_sixteen server started drop_all refl refl refl refl

packet_loop_endless_example :
    packet_loop 9 server
      (hanging b'S' (4 ∷ []))
      started
      false
      0
      (packet_size (hanging b'S' (4 ∷ [])) 0)
    ≡ endless
unfolding is_simple
packet_loop_endless_example = packet_loop_endless 9 server started b'S' (4 ∷ []) refl refl

-- A packet that is ready for the next one, and as an answer the same with another meaning.
abbrev sync : Bytes
sync = b'S' ∷ 0 ∷ 0 ∷ 0 ∷ 4 ∷ []

-- A query, and behind it the other packet.
abbrev ask : Bytes
ask = b'Q' ∷ 0 ∷ 0 ∷ 0 ∷ 6 ∷ b'x' ∷ 0 ∷ sync

ask-Border : {i : ℕ} → Border ask i → (i ≡ 0) ⊎ ((i ≡ 7) ⊎ (i ≡ 12))
ask-Border start = inl refl
ask-Border (behind b h) = elim (ask-Border b) [
  | inl e ↦ inr (inl (ap (λ i. i + (be32 ask (i + 1) + 1)) e))
  | inr (inl e) ↦ inr (inr (ap (λ i. i + (be32 ask (i + 1) + 1)) e))
  | inr (inr e) ↦ let out : 12 + (be32 ask 13 + 1) ≤ 12 = (rw e at h) in absurd (omega (arith, out))
]

ask-IsSane : IsSane ask
ask-IsSane = (
  λ i b. elim (ask-Border b) [
    | inl e ↦ rw e (omega arith)
    | inr (inl e) ↦ rw e (omega arith)
    | inr (inr e) ↦ rw e (omega arith)
  ],
  omega arith,
)

ask-IsPlain : IsPlain ask
ask-IsPlain i b = elim (ask-Border b) [
  | inl e ↦ rw e refl
  | inr (inl e) ↦ rw e refl
  | inr (inr e) ↦ rw e refl
]

parse_request_returns_example : (r : Requests) × (parse_request server started ask [] ≡ done r)
parse_request_returns_example =
    parse_request_returns server new_perm_obj started ask refl refl ask-IsSane ask-IsPlain

abbrev synced : Requests
synced = record { connection = started; request_in = []; request = sync; has_response = false }

parse_request_independent_example :
    (synced.request ≡ synced.request)
    × (synced.request_in ≡ synced.request_in)
    × (synced.request ++ synced.request_in ≡ sync)
unfolding parse_request parse_one
parse_request_independent_example =
    parse_request_independent server server started (record started { long_response = true }) sync
      synced (record synced { connection = record started { long_response = true } }) refl refl refl
