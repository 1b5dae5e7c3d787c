-- ===== src/Loader/Symbols.antt =====
-- Which calls reach the library (src/sql_api.cpp).
use greensql_fw.Base.{
  Bool, true, false, ◌&&◌, ◌||◌, Bytes, [], ◌∷◌, List, some, equal, codes, ◌≡◌, refl, ◌∙◌, ap,
  arith, Bool-cases, inl, inr,
}
use greensql_fw.Config.Backend.{BackendDb}
use greensql_fw.Loader.{
  Loader, symbols, is_set, load_symbols, db_init, call, library, connect, load_db,
}

-- Every symbol is found.
abbrev pub all_found : (Bytes → Bool) → List Bytes → Bool
all_found found [] = true
all_found found (name ∷ names) = found name && all_found found names

load_symbols-result :
    (names : List Bytes) (found : Bytes → Bool) (pointers : List Bytes)
    → (load_symbols names found pointers).1 ≡ all_found found names
unfolding load_symbols
load_symbols-result [] found pointers = refl
load_symbols-result (name ∷ names) found pointers = elim (Bool-cases (found name)) [
  | inl yes_found ↦ rw yes_found (load_symbols-result names found (name ∷ pointers))
  | inr missing ↦ rw missing
]

is_set-load_symbols :
    (names : List Bytes) (found : Bytes → Bool) (pointers : List Bytes) (name : Bytes)
    → all_found found names ≡ true
    → (is_set name names || is_set name pointers) ≡ true
    → is_set name (load_symbols names found pointers).0 ≡ true
unfolding load_symbols is_set
is_set-load_symbols [] found pointers name a h = h
is_set-load_symbols (n ∷ names) found pointers name a h =
    let here : found n ≡ true = ground (arith, a) in
    rw here
      (is_set-load_symbols names found (n ∷ pointers) name (ground (arith, a)) (ground (arith, h)))

db_load-is_set : is_set (codes "db_load") symbols ≡ true
unfolding is_set equal
db_load-is_set = refl

db_init-found :
    (dlsym : Bytes → Bool) (l : Loader)
    → all_found dlsym symbols ≡ true
    → db_init true dlsym l
      ≡ (record { pointers = (load_symbols symbols dlsym l.pointers).0; is_open = true }, true)
unfolding db_init
db_init-found dlsym l a =
    ap (λ b. (record { pointers = (load_symbols symbols dlsym l.pointers).0; is_open = true }, b))
      (load_symbols-result symbols dlsym l.pointers ∙ a)

-- With a library that is found and has every symbol: load_db answers whether the connection is made,
-- and from then on every call goes to the library, whatever was loaded before.
load_db_calls {ℓ} :
    {A : Type ℓ} (type : BackendDb) (dlopen dlsym : Bytes → Bool) (connects : Bool) (l : Loader)
    (name : Bytes) (missing answer : A)
    → dlopen (library type) ≡ true
    → all_found dlsym symbols ≡ true
    → is_set name symbols ≡ true
    → (next : Loader) × (load_db type dlopen dlsym connects l ≡ some (next, connects))
      × (call next name missing answer ≡ some answer)
unfolding load_db connect call
load_db_calls type dlopen dlsym connects l name missing answer o a h =
    let pointers = (load_symbols symbols dlsym l.pointers).0 in
    let next : Loader = record { pointers = pointers; is_open = true } in
    let set : (n : Bytes) → is_set n symbols ≡ true → is_set n pointers ≡ true =
      λ n e. is_set-load_symbols symbols dlsym l.pointers n a (rw e refl) in
    let loaded = set (codes "db_load") db_load-is_set in
    let started = db_init-found dlsym l a in
    (
      next,
      ap (λ b. connect connects (db_init b dlsym l)) o ∙ ap (connect connects) started ∙ rw loaded,
      rw (set name h),
    )

connect-connects :
    (connects : Bool) (e : Loader × Bool) (l : Loader)
    → connect connects e ≡ some (l, true)
    → connects ≡ true
unfolding connect call
connect-connects connects (next, false) l h = absurd (ground arith)
connect-connects connects (next, true) l h = ground arith

-- load_db reports a connection only where one is made.
pub load_db-connects :
    (type : BackendDb) (dlopen dlsym : Bytes → Bool) (connects : Bool) (l next : Loader)
    → load_db type dlopen dlsym connects l ≡ some (next, true)
    → connects ≡ true
unfolding load_db
load_db-connects type dlopen dlsym connects l next h =
    connect-connects connects (db_init (dlopen (library type)) dlsym l) next h
