-- ===== src/Storage/Atomic.antt =====
-- A transaction is all or nothing (internal/storage).
use model_gate.Prelude.{
  ◌≡◌, refl, ap, ◌∙◌, Bool, true, List, [], ◌∷◌, Option, none, some, String, if◌then◌else◌,
  Bool-cases, is_some, inl, inr, ◌⊎◌, ◌↔◌, IsOneOf,
}
use model_gate.Errors.{Error, wrapped, Result, ok, err}
use model_gate.Gateway.{RequestRecord}
use model_gate.Storage.Names.{Entry, sql_files, sort_strings, IsSorted, IsMigration}
use model_gate.Storage.{
  Statement, ensure_provider, insert_request, insert_usage, run_migration, mark_version, Database,
  Files, after_exec, end_commit, after_body, after_begin, exec_then, transact, is_unnamed,
  is_miscounted, record_body, record_usage,
}

-- What PostgreSQL documents of a transaction, by the contents `V` that others see (`stored`) and that
-- the transaction sees (`staged`): statements change the latter, a Commit that does not fail makes
-- it the former, and nothing else changes what others see. Of a Commit that fails it is not known
-- whether the server has committed: others see what they saw, or all that the transaction saw.
pub record IsTransactional {W V : Type 0} (stored staged : W → V) (effect : Statement → V → V)
    (db : Database W) : Type 0 where
  pub begins : (w : W) → (db.begin w).0 ≡ none → staged (db.begin w).1 ≡ stored w
  pub begin_stored : (w : W) → stored (db.begin w).1 ≡ stored w
  pub runs :
      (s : Statement) (w : W)
      → (db.exec s w).0 ≡ none
      → staged (db.exec s w).1 ≡ effect s (staged w)
  pub exec_stored : (s : Statement) (w : W) → stored (db.exec s w).1 ≡ stored w
  pub commits : (w : W) → (db.commit w).0 ≡ none → stored (db.commit w).1 ≡ staged w
  pub commit_stored :
      (w : W) (e : Error)
      → (db.commit w).0 ≡ some e
      → (stored (db.commit w).1 ≡ stored w) ⊎ (stored (db.commit w).1 ≡ staged w)
  -- A query changes nothing, and finds a version where the transaction's contents have it.
  pub has_version : String → V → Bool
  pub query_stored : (name : String) (w : W) → stored (db.is_applied name w).1 ≡ stored w
  pub query_staged : (name : String) (w : W) → staged (db.is_applied name w).1 ≡ staged w
  pub finds :
      (name : String) (w : W) (b : Bool)
      → (db.is_applied name w).0 ≡ ok b
      → has_version name (staged w) ≡ b
  pub rollback_stored : (w : W) → stored (db.rollback w) ≡ stored w

module _ {W V : Type 0} (stored staged : W → V) (effect : Statement → V → V) (db : Database W)
    (is : IsTransactional stored staged effect db) where
  -- A step in a transaction leaves what others see, and, if it does not fail, has this effect.
  pub record Does (change : V → V) (step : W → Option Error × W) : Type 0 where
    pub kept : (w : W) → stored (step w).1 ≡ stored w
    pub done : (w : W) → (step w).0 ≡ none → staged (step w).1 ≡ change (staged w)

  after_exec-Does :
      (change : V → V) (what : String) (rest : W → Option Error × W) (x : Option Error × W)
      → Does change rest
      → (stored (after_exec db what rest x).1 ≡ stored x.1)
        × ((after_exec db what rest x).0 ≡ none
            → (x.0 ≡ none) × (staged (after_exec db what rest x).1 ≡ change (staged x.1)))
  unfolding after_exec
  after_exec-Does change what rest (some e, w) r = (refl, λ h. cc)
  after_exec-Does change what rest (none, w) r = (r.kept w, λ h. (refl, r.done w h))

  exec_then-Does :
      (change : V → V) (what : String) (s : Statement) (rest : W → Option Error × W)
      → Does change rest
      → Does (λ v. change (effect s v)) (exec_then db what s rest)
  unfolding exec_then
  exec_then-Does change what s rest r = record {
    kept = λ w. (after_exec-Does change what rest (db.exec s w) r).0 ∙ is.exec_stored s w;
    done = λ w h.
        let (fine, result) = (after_exec-Does change what rest (db.exec s w) r).1 h in
        result ∙ ap change (is.runs s w fine);
  }

  -- What a transaction leaves for others: all that its body does if it does not fail, and nothing if
  -- it does; where it is the Commit that fails, with this message, nothing or all.
  abbrev pub Leaves : String → (V → V) → V → Option Error × W → Type 0
  Leaves commit_failed change v (some e, w) =
      (stored w ≡ v)
      ⊎ (((cause : Error) × (e ≡ wrapped commit_failed cause)) × (stored w ≡ change v))
  Leaves commit_failed change v (none, w) = stored w ≡ change v

  end_commit-Leaves :
      (change : V → V) (v : V) (what : String) (x : Option Error × W)
      → ((e : Error) → x.0 ≡ some e → (stored x.1 ≡ v) ⊎ (stored x.1 ≡ change v))
      → (x.0 ≡ none → stored x.1 ≡ change v)
      → Leaves what change v (end_commit db what x)
  unfolding end_commit
  end_commit-Leaves change v what (some e, w) failed well = elim (failed e refl) [
    | inl h ↦ inl (is.rollback_stored w ∙ h)
    | inr h ↦ inr ((e, refl), is.rollback_stored w ∙ h)
  ]
  end_commit-Leaves change v what (none, w) failed well = is.rollback_stored w ∙ well refl

  after_body-Leaves :
      (change : V → V) (v : V) (what : String) (x : Option Error × W)
      → stored x.1 ≡ v
      → (x.0 ≡ none → staged x.1 ≡ change v)
      → Leaves what change v (after_body db what x)
  unfolding after_body
  after_body-Leaves change v what (some e, w) kept done = inl (is.rollback_stored w ∙ kept)
  after_body-Leaves change v what (none, w) kept done =
      end_commit-Leaves change v what (db.commit w)
        (λ e z. elim (is.commit_stored w e z) [
          | inl h ↦ inl (h ∙ kept)
          | inr h ↦ inr (h ∙ done refl)
        ])
        (λ z. is.commits w z ∙ done refl)

  after_begin-Leaves :
      (change : V → V) (v : V) (what commit_failed : String) (body : W → Option Error × W)
      (x : Option Error × W)
      → Does change body
      → stored x.1 ≡ v
      → (x.0 ≡ none → staged x.1 ≡ v)
      → Leaves commit_failed change v (after_begin db what commit_failed body x)
  unfolding after_begin
  after_begin-Leaves change v what commit_failed body (some e, w) does kept begun = inl kept
  after_begin-Leaves change v what commit_failed body (none, w) does kept begun =
      after_body-Leaves change v commit_failed (body w) (does.kept w ∙ kept)
        (λ z. does.done w z ∙ ap change (begun refl))

  transact-Leaves :
      (change : V → V) (what commit_failed : String) (body : W → Option Error × W) (w : W)
      → Does change body
      → Leaves commit_failed change (stored w) (transact db what commit_failed body w)
  unfolding transact
  transact-Leaves change what commit_failed body w does =
      after_begin-Leaves change (stored w) what commit_failed body (db.begin w) does
        (is.begin_stored w) (is.begins w)

  nothing-Does : Does (λ v. v) (λ w. (none, w))
  nothing-Does = record { kept = λ w. refl; done = λ w h. refl }

  -- What a stored record changes.
  abbrev pub recorded : RequestRecord → V → V
  recorded r v =
      effect (insert_usage r) (effect (insert_request r) (effect (ensure_provider r.provider) v))

  record_body-Does : (r : RequestRecord) → Does (recorded r) (record_body db r)
  unfolding record_body
  record_body-Does r =
      exec_then-Does _ _ _ _ (exec_then-Does _ _ _ _ (exec_then-Does _ _ _ _ nothing-Does))

  -- With a database that keeps what PostgreSQL documents of transactions, Record is all or nothing. If
  -- it returns no error, the provider, the request and its usage are there; if it returns an error,
  -- others see what they saw before, or, only where the error is that of the Commit, all of them.
  pub record_usage-Leaves :
      (r : RequestRecord) (w : W)
      → Leaves "commit usage transaction" (recorded r) (stored w) (record_usage db r w)
  unfolding record_usage
  record_usage-Leaves r w = elim (Bool-cases (is_unnamed r)) [
    | inl z ↦ rw (record_usage, z) (inl refl)
    | inr z ↦ elim (Bool-cases (is_miscounted r)) [
      | inl z' ↦ rw (record_usage, z, z') (inl refl)
      | inr z' ↦
          rw (record_usage, z, z')
            (transact-Leaves (recorded r) "begin usage transaction" "commit usage transaction"
              (record_body db r) w (record_body-Does r))
    ]
  ]

  -- What the migrations change: each file that has no version yet runs, and is marked.
  abbrev read_effect : Result String → String → V → V
  read_effect (err e) name v = v
  read_effect (ok contents) name v = effect (mark_version name) (effect (run_migration contents) v)

  pub migrated : Files → List String → V → V
  migrated files [] v = v
  migrated files (name ∷ names) v =
      let run = migrated files names (read_effect (files.read name) name v) in
      let skipped = migrated files names v in if is.has_version name v then skipped else run

  abbrev names_of : Result (List Entry) → List String
  names_of (err e) = []
  names_of (ok entries) = sort_strings (sql_files entries)

  -- The names, in order, of the files that are migrations, as far as the directory can be read.
  abbrev pub Lists : Result (List Entry) → List String → Type 0
  Lists (err e) names = names ≡ []
  Lists (ok entries) names =
      IsSorted names × ((n : String) → IsOneOf names n ↔ IsMigration entries n)

  -- A directory that cannot be read is an error.
  abbrev pub Fails : Result (List Entry) → Option Error → Type 0
  Fails (err e) failure = is_some failure ≡ true
  Fails (ok entries) failure = Unit
