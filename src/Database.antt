-- ===== src/Database.antt =====
-- `Connect`, `Close` and `Migrate` of server/internal/db/db.go. The pool, the database and what they do
-- are parameters; the statements go by names, with their texts in the source.
use mathlib.Core.Path.{subst}
use crew_im.Prelude.{
  String, ◌≡◌, refl, Option, none, some, List, [], ◌∷◌, ◌<>◌, Result, ok, err, All, ap,
}

pub data SchemaStatement : Type 0 where
  -- `SchemaSQL`: every table of the first version and its indexes, `IF NOT EXISTS`
  schema_sql : SchemaStatement
  -- `ALTER TABLE tasks ADD COLUMN IF NOT EXISTS session_id`
  add_session_id : SchemaStatement
  -- `CREATE INDEX IF NOT EXISTS idx_tasks_session`
  index_tasks_session : SchemaStatement
  -- `CREATE TABLE IF NOT EXISTS user_accounts`
  create_user_accounts : SchemaStatement
  -- `CREATE TABLE IF NOT EXISTS push_tokens`
  create_push_tokens : SchemaStatement

-- pgxpool with a database behind it; an error is its text.
pub record Driver (Pool Db : Type 0) : Type 0 where
  pub new_pool : String → Result Pool
  pub ping : Pool → Option String
  pub exec : SchemaStatement → Db → Option String × Db
  pub close_pool : Pool → Pool

module _ {Pool Db : Type 0} (d : Driver Pool Db) where
  opened_pool : Result Pool → Option Pool × Option String
  opened_pool (err e) = (none, some ("unable to connect to database: " <> e))
  opened_pool (ok pool) = (some pool, d.ping pool)

  -- `Connect`: what `Pool` is afterwards, and the error.
  unfoldable pub connect : String → Option Pool × Option String
  unfolding opened_pool
  connect url = opened_pool (d.new_pool url)

  unfoldable pub close : Option Pool → Option Pool
  close none = none
  close (some pool) = some (d.close_pool pool)

  abbrev pub migrations : List SchemaStatement
  migrations = add_session_id ∷ index_tasks_session ∷ create_user_accounts ∷ create_push_tokens ∷ []

  -- An error ends it, and is said as `said` says it.
  unfoldable pub unless_failed :
      (String → String) → (Db → Option String × Db) → Option String × Db → Option String × Db
  unless_failed said next (none, db) = next db
  unless_failed said next (some e, db) = (some (said e), db)

  -- The loop over the migrations.
  unfoldable pub migrate_each : List SchemaStatement → Db → Option String × Db
  migrate_each [] db = (none, db)
  migrate_each (m ∷ ms) db =
      unless_failed (λ e. "migration failed: " <> e) (migrate_each ms) (d.exec m db)

  unfoldable pub migrate : Db → Option String × Db
  migrate db = unless_failed (λ e. e) (migrate_each migrations) (d.exec schema_sql db)

  -- What `IF NOT EXISTS` promises: a statement that has succeeded leaves its tables and indexes there,
  -- as every later one does, and then does nothing.
  pub record IsRepeatable (Has : SchemaStatement → Db → Type 0) : Type 0 where
    pub made : (s : SchemaStatement) (db db' : Db) → d.exec s db ≡ (none, db') → Has s db'
    pub stays :
        (s t : SchemaStatement) (db db' : Db) → Has s db → d.exec t db ≡ (none, db') → Has s db'
    pub again : (s : SchemaStatement) (db : Db) → Has s db → d.exec s db ≡ (none, db)

  unless_failed-none :
      (said : String → String) (next : Db → Option String × Db) (o : Option String × Db) (r : Db)
      → unless_failed said next o ≡ (none, r)
      → (o ≡ (none, o.1)) × (next o.1 ≡ (none, r))
  unfolding unless_failed
  unless_failed-none said next (none, db) r e = (refl, e)
  unless_failed-none said next (some x, db) r e =
      let no : some (said x) ≡ none = ap (λ q. q.0) e in cc

  module _ (Has : SchemaStatement → Db → Type 0) (repeatable : IsRepeatable Has) where
    migrate_each-stays :
        (s : SchemaStatement) (ms : List SchemaStatement) (db db' : Db)
        → Has s db
        → migrate_each ms db ≡ (none, db')
        → Has s db'
    unfolding migrate_each
    migrate_each-stays s [] db db' has e = subst (Has s) (ap (λ q. q.1) e) has
    migrate_each-stays s (m ∷ ms) db db' has e =
        let (one, rest) = unless_failed-none _ (migrate_each ms) (d.exec m db) db' e in
        migrate_each-stays s ms (d.exec m db).1 db'
          (repeatable.stays s m db (d.exec m db).1 has one) rest

    migrate_each-made :
        (ms : List SchemaStatement) (db db' : Db)
        → migrate_each ms db ≡ (none, db')
        → All (λ s. Has s db') ms
    unfolding migrate_each
    migrate_each-made [] db db' e = tt
    migrate_each-made (m ∷ ms) db db' e =
        let (one, rest) = unless_failed-none _ (migrate_each ms) (d.exec m db) db' e in
        let next = (d.exec m db).1 in
        (
          migrate_each-stays m ms next db' (repeatable.made m db next one) rest,
          migrate_each-made ms next db' rest,
        )

    migrate_each-again :
        (ms : List SchemaStatement) (db : Db)
        → All (λ s. Has s db) ms
        → migrate_each ms db ≡ (none, db)
    unfolding migrate_each unless_failed
    migrate_each-again [] db all = refl
    migrate_each-again (m ∷ ms) db all =
        rw (repeatable.again m db all.0) (migrate_each-again ms db all.1)

    -- With statements that can be repeated, a `Migrate` that succeeds leaves every table of the
    -- server there, and a second one, as at the next start of the server, succeeds and changes
    -- nothing.
    pub migrate-again :
        (db db' : Db)
        → migrate db ≡ (none, db')
        → All (λ s. Has s db') (schema_sql ∷ migrations) × (migrate db' ≡ (none, db'))
    unfolding migrate unless_failed
    migrate-again db db' e =
        let (one, rest) =
          unless_failed-none _ (migrate_each migrations) (d.exec schema_sql db) db' e in
        let next = (d.exec schema_sql db).1 in
        let schema =
          migrate_each-stays schema_sql migrations next db' (repeatable.made schema_sql db next one)
            rest in
        let each = migrate_each-made migrations next db' rest in
        (
          (schema, each),
          rw (repeatable.again schema_sql db' schema) (migrate_each-again migrations db' each),
        )
