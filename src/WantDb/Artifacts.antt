-- ===== src/WantDb/Artifacts.antt =====
-- artifact.go: results that are kept, each with its store. The function that fills the store is the
-- parameter `fn`, the hash the parameter `hash`, the time an argument.
use want.Common.{ℕ, if◌then◌else◌, true, Option, none, some, []}
use want.Common.Text.{Str}
use want.Common.Result.{Result, ok, err}
use want.WantDb.Tables.{Db, DbError, foreign_key, no_rows, Tx, ◌>>=◌}
use want.WantDb.Blobs.{create_store, at_key}

-- `Artifact`.
pub record Artifact : Type 0 where
  pub root : Str
  pub schema : Str
  pub store : ℕ
  pub created_at : Str

-- The table `artifacts` beside the others.
pub record Artifacts : Type 0 where
  pub db : Db
  pub artifacts : ℕ → Option Artifact

abbrev pub Ax : Type 0 → Type 0
Ax A = Artifacts → Result DbError A × Artifacts

abbrev pub on_tables : {A : Type 0} → Tx A → Ax A
on_tables m s = ((m s.db).0, record s { db = (m s.db).1 })

-- INSERT OR IGNORE into `artifacts`.
unfoldable pub insert_artifact : ℕ → Artifact → Ax Unit
insert_artifact id a s = elim (s.artifacts id) [
  | some old ↦ (ok tt, s)
  | none ↦
      if s.db.stores a.store
      then (
        ok tt,
        record s {
          db = record s.db { in_use = at_key s.db.in_use a.store true };
          artifacts = at_key s.artifacts id (some a);
        },
      )
      else (err foreign_key, s)
]

-- `CreateArtifact`.
unfoldable pub create_artifact : (Str → ℕ) → Str → (ℕ → Tx Str) → Str → Ax ℕ
unfolding create_store insert_artifact
create_artifact hash sch fn now = on_tables create_store >>= λ sid. on_tables (fn sid) >>= λ root.
    insert_artifact (hash root)
      (record { root = root; schema = sch; store = sid; created_at = now })
    >>= λ _ s. (ok (hash root), s)

-- `GetArtifact`: the time is read and not returned.
unfoldable pub get_artifact : ℕ → Ax Artifact
get_artifact id s = elim (s.artifacts id) [
  | none ↦ (err no_rows, s)
  | some a ↦ (ok (record a { created_at = [] }), s)
]
