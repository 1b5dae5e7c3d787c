-- ===== src/Log/File.antt =====
-- The log file of src/log.cpp: when it is opened again, and what is written to it. What fstat and fopen
-- answer and the text of the time are arguments.
use greensql_fw.Base.{
  ℕ, Bool, true, false, not, ◌==◌, ltb, if◌then◌else◌, Bytes, [], ◌∷◌, ◌++◌, List, Option, none,
  some, codes, ◌≡◌, refl, sym, ◌∙◌, ap, arith, Bool-cases, inl, inr,
}
use greensql_fw.Base.Int.{ℤ, pos, negsuc}

pub data ErrorType : Type 0 where
  crit err info sql_debug debug storage net_debug : ErrorType

-- `(int) type`.
type_number : ErrorType → ℕ
type_number crit = 0
type_number err = 1
type_number info = 2
type_number sql_debug = 3
type_number debug = 4
type_number storage = 5
type_number net_debug = 6

type_text : ErrorType → Bytes
type_text crit = codes "CRIT      "
type_text err = codes "ERROR       "
type_text info = codes "INFO      "
type_text sql_debug = codes "SQL_DEBUG "
type_text debug = codes "DEBUG     "
type_text storage = codes "STORAGE   "
type_text net_debug = codes "NET_DEBUG "

-- `file` is log_file, none for the standard output; `open_files` are the files that are open, and
-- `written` what was written so far, each text with its file.
pub record LogState : Type 0 where
  pub level : ℤ
  pub file : Option ℕ
  pub open_files : List ℕ
  pub written : List (Option ℕ × Bytes)

-- What fstat says of the number of links of log_file, and what fopen answers.
pub record FileAnswers : Type 0 where
  pub links : Option ℕ
  pub opened : Option ℕ

without : ℕ → List ℕ → List ℕ
without x [] = []
without x (y ∷ l) = let rest = without x l in if y == x then l else y ∷ rest

-- log_init, with the answer of fopen.
log_init : ℤ → Option ℕ → LogState → LogState × Bool
log_init level none s = (record s { level = level }, false)
log_init level (some fp) s =
    (record s { level = level; file = some fp; open_files = fp ∷ s.open_files }, true)

close_file : Option ℕ → List ℕ → List ℕ
close_file none files = files
close_file (some fp) files = without fp files

log_close : LogState → LogState
log_close s = record s { file = none; open_files = close_file s.file s.open_files }

-- Whether log_file has not been deleted.
is_kept : Option ℕ → Option ℕ → Bool
is_kept none links = false
is_kept (some fp) none = false
is_kept (some fp) (some n) = not (n == 0)

-- log_reload, with the level of the configuration.
log_reload : ℤ → FileAnswers → LogState → LogState
log_reload level a s =
    if is_kept s.file a.links then s else (log_init level a.opened (log_close s)).0

-- `log_level < (int) type`.
is_silent : ℤ → ErrorType → Bool
is_silent (pos n) type = ltb n (type_number type)
is_silent (negsuc n) type = true

-- logevent with the text of its arguments and, in brackets, the time.
logevent : ℤ → FileAnswers → (time : Bytes) → ErrorType → Bytes → LogState → LogState
logevent level a time type text s =
    let ready = log_reload level a s in
    if is_silent s.level type then s else record ready {
      written = ready.written ++ ((ready.file, time ++ (type_text type ++ text)) ∷ []);
    }

-- A call of logevent.
pub record LogCall : Type 0 where
  pub answers : FileAnswers
  pub time : Bytes
  pub type : ErrorType
  pub text : Bytes

-- Calls in their order.
pub log_all : ℤ → List LogCall → LogState → LogState
log_all level [] s = s
log_all level (c ∷ calls) s = log_all level calls (logevent level c.answers c.time c.type c.text s)

-- The file that is open, if any.
abbrev pub own : Option ℕ → List ℕ
own none = []
own (some fp) = fp ∷ []

abbrev pub IsOwned : LogState → Type 0
IsOwned s = s.open_files ≡ own s.file

close_file-own : (o : Option ℕ) → close_file o (own o) ≡ []
unfolding close_file without
close_file-own none = refl
close_file-own (some fp) = ground arith

log_close-empty : (s : LogState) → IsOwned s → (log_close s).open_files ≡ []
unfolding log_close
log_close-empty s h = ap (close_file s.file) h ∙ close_file-own s.file

log_init-IsOwned :
    (level : ℤ) (opened : Option ℕ) (s : LogState)
    → s.file ≡ none
    → s.open_files ≡ []
    → IsOwned (log_init level opened s).0
unfolding log_init
log_init-IsOwned level none s e h = h ∙ ap own (sym e)
log_init-IsOwned level (some fp) s e h = ap (λ l. fp ∷ l) h

log_reload-IsOwned :
    (level : ℤ) (a : FileAnswers) (s : LogState) → IsOwned s → IsOwned (log_reload level a s)
unfolding log_reload log_close
log_reload-IsOwned level a s h = elim (Bool-cases (is_kept s.file a.links)) [
  | inl kept ↦ rw kept h
  | inr gone ↦ rw gone (log_init-IsOwned level a.opened (log_close s) refl (log_close-empty s h))
]

logevent-IsOwned :
    (level : ℤ) (a : FileAnswers) (time : Bytes) (type : ErrorType) (text : Bytes) (s : LogState)
    → IsOwned s
    → IsOwned (logevent level a time type text s)
unfolding logevent
logevent-IsOwned level a time type text s h = elim (Bool-cases (is_silent s.level type)) [
  | inl silent ↦ rw silent h
  | inr loud ↦ rw loud (log_reload-IsOwned level a s h)
]

-- However often the file is deleted and opened again, the log holds no file open but the one that it
-- writes to, and none while it writes to the standard output.
pub log_all-IsOwned :
    (level : ℤ) (calls : List LogCall) (s : LogState) → IsOwned s → IsOwned (log_all level calls s)
unfolding log_all
log_all-IsOwned level [] s h = h
log_all-IsOwned level (c ∷ calls) s h =
    log_all-IsOwned level calls (logevent level c.answers c.time c.type c.text s)
      (logevent-IsOwned level c.answers c.time c.type c.text s h)
