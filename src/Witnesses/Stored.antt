-- ===== src/Witnesses/Stored.antt =====
-- The storage at a concrete database (internal/storage).
use model_gate.Prelude.{◌≡◌, Option, refl, ap, false, List, [], ◌∷◌, none, String, contains}
use model_gate.Errors.{Error, ok}
use model_gate.Storage.Names.{Entry, sort_strings, sql_files, has_suffix}
use model_gate.Errors.Chain.{value_or}
use model_gate.Gateway.{RequestRecord, no_usage}
use model_gate.Storage.{
  Statement, take_lock, create_versions, ensure_provider, insert_request, insert_usage,
  run_migration, mark_version, Database, Files, record_usage,
}
use model_gate.Storage.Atomic.{IsTransactional, Leaves, recorded, record_usage-Leaves}

-- What has been written, last first: what others see, and what the transaction sees.
abbrev Rows : Type 0
Rows = List String

abbrev effect : Statement → Rows → Rows
effect take_lock v = v
effect create_versions v = v
effect (ensure_provider p) v = p ∷ v
effect (insert_request r) v = r.request_id ∷ v
effect (insert_usage r) v = r.status ∷ v
effect (run_migration contents) v = contents ∷ v
effect (mark_version name) v = name ∷ v

abbrev database : Database (Rows × Rows)
database = record {
  begin = λ w. (none, (w.0, w.0));
  exec = λ s w. (none, (w.0, effect s w.1));
  is_applied = λ name w. (ok (contains w.1 name), w);
  commit = λ w. (none, (w.1, w.1));
  rollback = λ w. (w.0, w.0);
}

database-IsTransactional : IsTransactional (λ w. w.0) (λ w. w.1) effect database
database-IsTransactional = record {
  begins = λ w h. refl;
  begin_stored = λ w. refl;
  runs = λ s w h. refl;
  exec_stored = λ s w. refl;
  commits = λ w h. refl;
  commit_stored = λ w e h. cc;
  has_version = λ name v. contains v name;
  query_stored = λ name w. refl;
  query_staged = λ name w. refl;
  finds = λ name w b h. ap (value_or false) h;
  rollback_stored = λ w. refl;
}

abbrev usage_row : RequestRecord
usage_row = record {
  request_id = "1";
  provider = "deepseek";
  model = "deepseek-chat";
  status = "succeeded";
  usage = no_usage;
  latency = 5;
  cache_status = "MISS";
  error_code = "";
}

-- What a call leaves at that database.
abbrev LeavesThere : String → (Rows → Rows) → Rows → Option Error × (Rows × Rows) → Type 0
LeavesThere = Leaves (λ w. w.0) (λ w. w.1) effect database database-IsTransactional

record_usage-Leaves_example :
    LeavesThere "commit usage transaction"
      (recorded (λ w. w.0) (λ w. w.1) effect database database-IsTransactional usage_row)
      []
      (record_usage database usage_row ([], []))
record_usage-Leaves_example =
    record_usage-Leaves (λ w. w.0) (λ w. w.1) effect database database-IsTransactional usage_row
      ([], [])

abbrev file : String → Entry
file name = record { name = name; is_dir = false }

abbrev files : Files
files = record {
  entries = ok (file "2.sql" ∷ file "README" ∷ file "1.sql" ∷ []);
  read = λ name. ok "ALTER";
}

-- The files that are listed there.
files_in_order :
    sort_strings (sql_files (file "2.sql" ∷ file "README" ∷ file "1.sql" ∷ []))
    ≡ "1.sql" ∷ "2.sql" ∷ []
unfolding sort_strings sql_files has_suffix
files_in_order = refl
