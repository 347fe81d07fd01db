-- ===== src/Storage.antt =====
-- The usage repository and the migrations (internal/storage/usage.go, migrate.go). A database is a
-- parameter: each call on it, and on a transaction, is a step of the world `W`. What the
-- file system of the migrations holds is a parameter too.
pub mod Names
pub mod Atomic
use model_gate.Prelude.{
  Bool, true, false, ◌||◌, List, [], ◌∷◌, Option, none, some, String, str_eq, text_append,
  if◌then◌else◌, ℤ, pos, ltb_ℤ,
}
use model_gate.Errors.{Error, message, wrapped, Result, ok, err}
use model_gate.Gateway.{RequestRecord}
use model_gate.Storage.Names.{Entry, sql_files, sort_strings}

pub data Statement : Type 0 where
  take_lock create_versions : Statement
  ensure_provider : String → Statement
  insert_request insert_usage : RequestRecord → Statement
  run_migration mark_version : String → Statement

-- Beginner and Transaction.
pub record Database (W : Type 0) : Type 0 where
  pub begin : W → Option Error × W
  pub exec : Statement → W → Option Error × W
  pub is_applied : String → W → Result Bool × W
  pub commit : W → Option Error × W
  pub rollback : W → W

-- What the embedded file system has: fs.ReadDir of `.`, and fs.ReadFile of a name.
pub record Files : Type 0 where
  pub entries : Result (List Entry)
  pub read : String → Result String

abbrev pub labelled : String → Option Error → Option Error
labelled what none = none
labelled what (some e) = some (wrapped what e)

unfoldable pub is_unnamed : RequestRecord → Bool
is_unnamed r = str_eq r.provider "" || str_eq r.model "" || str_eq r.request_id ""

abbrev is_negative : ℤ → Bool
is_negative n = ltb_ℤ n (pos 0)

unfoldable pub is_miscounted : RequestRecord → Bool
is_miscounted r =
    is_negative r.usage.prompt_tokens
    || is_negative r.usage.completion_tokens
    || is_negative r.usage.total_tokens

module _ {W : Type 0} (db : Database W) where
  -- `if err := tx.Exec(…); err != nil { return … }`; `rest` is what follows.
  unfoldable pub after_exec : String → (W → Option Error × W) → Option Error × W → Option Error × W
  after_exec what rest (some e, w) = (some (wrapped what e), w)
  after_exec what rest (none, w) = rest w

  unfoldable pub exec_then : String → Statement → (W → Option Error × W) → W → Option Error × W
  unfolding after_exec
  exec_then what statement rest w = after_exec what rest (db.exec statement w)

  -- What follows the body of a transaction: the Commit, and the deferred Rollback.
  unfoldable pub end_commit : String → Option Error × W → Option Error × W
  end_commit what (failure, w) = (labelled what failure, db.rollback w)

  unfoldable pub after_body : String → Option Error × W → Option Error × W
  unfolding end_commit
  after_body what (some e, w) = (some e, db.rollback w)
  after_body what (none, w) = end_commit what (db.commit w)

  unfoldable pub after_begin :
      String → String → (W → Option Error × W) → Option Error × W → Option Error × W
  unfolding after_body
  after_begin what commit_failed body (some e, w) = (some (wrapped what e), w)
  after_begin what commit_failed body (none, w) = after_body commit_failed (body w)

  -- A transaction around `body`.
  unfoldable pub transact : String → String → (W → Option Error × W) → W → Option Error × W
  unfolding after_begin
  transact begin_failed commit_failed body w =
      after_begin begin_failed commit_failed body (db.begin w)

  unfoldable pub record_body : RequestRecord → W → Option Error × W
  unfolding exec_then
  record_body r w =
      exec_then "ensure provider" (ensure_provider r.provider)
        (exec_then "insert request record" (insert_request r)
          (exec_then "insert usage record" (insert_usage r) (λ w'. (none, w'))))
        w

  -- Record; a latency is never negative here, and the creation time is left out.
  unfoldable pub record_usage : RequestRecord → W → Option Error × W
  unfolding transact record_body is_unnamed is_miscounted
  record_usage r w =
      if is_unnamed r
      then (some (message "request id, provider, and model are required"), w)
      else if is_miscounted r
      then (some (message "usage counters and latency must be non-negative"), w)
      else transact "begin usage transaction" "commit usage transaction" (record_body r) w

  abbrev about : String → String → String
  about what name = text_append what name

  -- A migration that has not been applied, by what reading it gives.
  unfoldable pub read_then : (W → Option Error × W) → String → Result String → W → Option Error × W
  unfolding exec_then
  read_then rest name (err e) w = (some (wrapped (about "read migration " name) e), w)
  read_then rest name (ok contents) w =
      exec_then (about "apply migration " name) (run_migration contents)
        (exec_then (about "record migration " name) (mark_version name) rest) w

  unfoldable pub after_check :
      Files → (W → Option Error × W) → String → Result Bool × W → Option Error × W
  unfolding read_then
  after_check files rest name (err e, w) = (some (wrapped (about "check migration " name) e), w)
  after_check files rest name (ok true, w) = rest w
  after_check files rest name (ok false, w) = read_then rest name (files.read name) w

  -- One round of the loop over the files; `rest` is the rest of the loop.
  unfoldable pub migrate_one : Files → (W → Option Error × W) → String → W → Option Error × W
  unfolding after_check
  migrate_one files rest name w = after_check files rest name (db.is_applied name w)

  unfoldable pub migrate_all : Files → List String → W → Option Error × W
  unfolding migrate_one
  migrate_all files [] w = (none, w)
  migrate_all files (name ∷ names) w = migrate_one files (λ w'. migrate_all files names w') name w

  -- From the answer of fs.ReadDir on.
  unfoldable pub list_then : Files → Result (List Entry) → W → Option Error × W
  unfolding migrate_all
  list_then files (err e) w = (some (wrapped "list migrations" e), w)
  list_then files (ok entries) w = migrate_all files (sort_strings (sql_files entries)) w

  -- ApplyMigrations
  unfoldable pub apply_migrations : Files → W → Option Error × W
  unfolding transact list_then exec_then
  apply_migrations files w =
      transact "begin migration transaction" "commit migrations"
        (exec_then "acquire migration lock" take_lock
          (exec_then "create schema_migrations" create_versions (list_then files files.entries)))
        w
