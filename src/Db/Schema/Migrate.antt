-- ===== src/Db/Schema/Migrate.antt =====
-- src/db/schema.rs: running the migrations, on a fresh and on a migrated database.
use v3_node.Base.{Bool, true, ◌≡◌, refl, ap, List, [], ◌∷◌, ◌++◌, Result, ok, err, arith}
use v3_node.Db.Text.{Text}
use v3_node.Db.Schema.{
  Statement, name_of, if_not_exists, names, migrations, Sqlite, execute_all, run_migrations,
}

-- What SQLite documents of CREATE: after it the object is there, and no object goes; and where the
-- object is there already, a statement that says IF NOT EXISTS succeeds
-- and does nothing.
pub record Catalog (sqlite : Sqlite) : Type 0 where
  pub has : Text → sqlite.Connection → Bool
  pub creates :
      (s : Statement) (conn conn' : sqlite.Connection)
      → sqlite.execute_batch s conn ≡ (ok tt, conn')
      → has (name_of s) conn' ≡ true
  pub keeps :
      (s : Statement) (conn conn' : sqlite.Connection) (name : Text)
      → sqlite.execute_batch s conn ≡ (ok tt, conn')
      → has name conn ≡ true
      → has name conn' ≡ true
  pub exists :
      (s : Statement) (conn : sqlite.Connection)
      → if_not_exists s ≡ true
      → has (name_of s) conn ≡ true
      → sqlite.execute_batch s conn ≡ (ok tt, conn)

-- The tables and the indices of the schema.
abbrev pub objects : List Text
objects = names (
    "swaps" ∷ "idx_swaps_pool_block" ∷ "liquidity_changes" ∷ "idx_lc_pool_block"
    ∷ "idx_lc_pool_owner_ticks" ∷ [])

module _ (sqlite : Sqlite) where
  -- Where the execution of a list failed: after some statements that succeeded.
  pub record FailedAt (statements : List Statement) (conn : sqlite.Connection) (e : sqlite.Error)
      (conn' : sqlite.Connection) : Type 0 where
    pub before : List Statement
    pub failing : Statement
    pub after : List Statement
    pub reached : sqlite.Connection
    pub split : statements ≡ before ++ failing ∷ after
    pub succeeded : execute_all sqlite before conn ≡ (ok tt, reached)
    pub failed : sqlite.execute_batch failing reached ≡ (err e, conn')

  first_failure :
      (s : Statement) (rest : List Statement) (conn conn₁ conn' : sqlite.Connection)
      (e : sqlite.Error) (r : Result (Unit {0}) sqlite.Error)
      → sqlite.execute_batch s conn ≡ (r, conn₁)
      → ((c : sqlite.Connection)
          → execute_all sqlite rest c ≡ (err e, conn')
          → FailedAt rest c e conn')
      → execute_all sqlite (s ∷ rest) conn ≡ (err e, conn')
      → FailedAt (s ∷ rest) conn e conn'
  unfolding execute_all
  first_failure s rest conn conn₁ conn' e (err x) run ih h = record {
    before = [];
    failing = s;
    after = rest;
    reached = conn;
    split = refl;
    succeeded = refl;
    failed = ground arith;
  }
  first_failure s rest conn conn₁ conn' e (ok u) run ih h =
      let f = ih conn₁ (ground arith) in
      record {
        before = s ∷ f.before;
        failing = f.failing;
        after = f.after;
        reached = f.reached;
        split = ap (◌∷◌ s) f.split;
        succeeded = ground (arith, f.succeeded);
        failed = f.failed;
      }

  execute_all-err :
      (statements : List Statement) (conn conn' : sqlite.Connection) (e : sqlite.Error)
      → execute_all sqlite statements conn ≡ (err e, conn')
      → FailedAt statements conn e conn'
  unfolding execute_all
  execute_all-err [] conn conn' e h = ground arith
  execute_all-err (s ∷ rest) conn conn' e h =
      let (r, conn₁) = sqlite.execute_batch s conn in
      first_failure s rest conn conn₁ conn' e r refl (λ c. execute_all-err rest c conn' e) h

  -- A failed migration stops at the first statement that fails and reports its error: those before it
  -- are in effect, those after it were not tried.
  pub run_migrations-err :
      (conn conn' : sqlite.Connection) (e : sqlite.Error)
      → run_migrations sqlite conn ≡ (err e, conn')
      → FailedAt migrations conn e conn'
  unfolding run_migrations
  run_migrations-err conn conn' e h = execute_all-err migrations conn conn' e h

module _ (sqlite : Sqlite) (catalog : Catalog sqlite) where
  abbrev pub AllExist : List Statement → sqlite.Connection → Type 0
  AllExist [] conn = Unit {0}
  AllExist (s ∷ rest) conn = (catalog.has (name_of s) conn ≡ true) × AllExist rest conn

  -- A list that succeeds is a first statement and a rest that succeed.
  first_success :
      (s : Statement) (rest : List Statement) (conn conn₁ conn' : sqlite.Connection)
      (r : Result (Unit {0}) sqlite.Error)
      → sqlite.execute_batch s conn ≡ (r, conn₁)
      → execute_all sqlite (s ∷ rest) conn ≡ (ok tt, conn')
      → (sqlite.execute_batch s conn ≡ (ok tt, conn₁))
        × (execute_all sqlite rest conn₁ ≡ (ok tt, conn'))
  unfolding execute_all
  first_success s rest conn conn₁ conn' (ok tt) run h = (run, ground arith)
  first_success s rest conn conn₁ conn' (err x) run h = ground arith

  execute_all-keeps :
      (statements : List Statement) (conn conn' : sqlite.Connection) (name : Text)
      → execute_all sqlite statements conn ≡ (ok tt, conn')
      → catalog.has name conn ≡ true
      → catalog.has name conn' ≡ true
  unfolding execute_all
  execute_all-keeps [] conn conn' name h k = ground arith
  execute_all-keeps (s ∷ rest) conn conn' name h k =
      let (r, conn₁) = sqlite.execute_batch s conn in
      let (first, others) = first_success s rest conn conn₁ conn' r refl h in
      execute_all-keeps rest conn₁ conn' name others (catalog.keeps s conn conn₁ name first k)

  execute_all-creates :
      (statements : List Statement) (conn conn' : sqlite.Connection)
      → execute_all sqlite statements conn ≡ (ok tt, conn')
      → AllExist statements conn'
  execute_all-creates [] conn conn' h = tt
  execute_all-creates (s ∷ rest) conn conn' h =
      let (r, conn₁) = sqlite.execute_batch s conn in
      let (first, others) = first_success s rest conn conn₁ conn' r refl h in
      (
        execute_all-keeps rest conn₁ conn' (name_of s) others (catalog.creates s conn conn₁ first),
        execute_all-creates rest conn₁ conn' others,
      )

  abbrev AllGuarded : List Statement → Type 0
  AllGuarded [] = Unit {0}
  AllGuarded (s ∷ rest) = (if_not_exists s ≡ true) × AllGuarded rest

  execute_all-again :
      (statements : List Statement) (conn : sqlite.Connection)
      → AllGuarded statements
      → AllExist statements conn
      → execute_all sqlite statements conn ≡ (ok tt, conn)
  unfolding execute_all
  execute_all-again [] conn g h = refl
  execute_all-again (s ∷ rest) conn g h =
      ground (arith, catalog.exists s conn g.0 h.0, execute_all-again rest conn g.1 h.1)

  abbrev pub AllThere : List Text → sqlite.Connection → Type 0
  AllThere [] conn = Unit {0}
  AllThere (name ∷ rest) conn = (catalog.has name conn ≡ true) × AllThere rest conn

  pub run_migrations_twice :
      (conn conn' : sqlite.Connection)
      → run_migrations sqlite conn ≡ (ok tt, conn')
      → AllThere objects conn' × (run_migrations sqlite conn' ≡ (ok tt, conn'))
  unfolding run_migrations migrations
  run_migrations_twice conn conn' h =
      let there : AllExist migrations conn' = execute_all-creates migrations conn conn' h in
      (there, execute_all-again migrations conn' (refl, (refl, (refl, (refl, (refl, tt))))) there)
