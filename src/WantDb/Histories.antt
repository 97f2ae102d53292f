-- ===== src/WantDb/Histories.antt =====
-- Histories of calls on the stores of a new database: store.go.
use want.Common.{ℕ, refl, ◌≢◌, Bool, false, none, List, [], ◌∷◌, arith}
use want.Common.Text.{Str}
use want.WantDb.Tables.{Db}
use want.WantDb.Blobs.{add_blob, delete_blob, create_store, drop_store, post_blob}
use want.WantDb.Counted.{
  Counted, add_blob-Counted, post_blob-Counted, delete_blob-Counted, drop_store-Counted,
  create_store-Counted,
}

-- A database with empty tables. Store ids start at 1.
abbrev pub new_db : Db
new_db = record {
  blobs = λ _. none;
  links = [];
  stores = λ _. false;
  next_store = 1;
  in_use = λ _. false;
}

-- A call, and the start or end of a use of a store by a job or an artifact.
pub data Call : Type 0 where
  create : Call
  drop : ℕ → Call
  post : ℕ → Str → Call
  add : ℕ → ℕ → Call
  delete : ℕ → ℕ → Call
  refer : (ℕ → Bool) → Call

-- No `DeleteBlob` is called with store id 0, which stands for every store.
abbrev pub NoZeroDeletes : List Call → Type 0
NoZeroDeletes [] = Unit
NoZeroDeletes (delete sid id ∷ cs) = (sid ≢ 0) × NoZeroDeletes cs
NoZeroDeletes (create ∷ cs) = NoZeroDeletes cs
NoZeroDeletes (drop sid ∷ cs) = NoZeroDeletes cs
NoZeroDeletes (post sid x ∷ cs) = NoZeroDeletes cs
NoZeroDeletes (add sid id ∷ cs) = NoZeroDeletes cs
NoZeroDeletes (refer uses ∷ cs) = NoZeroDeletes cs

module _ (hash : Str → ℕ) where
  unfoldable pub after : Call → Db → Db
  unfolding create_store drop_store post_blob add_blob delete_blob
  after create s = (create_store s).1
  after (drop sid) s = (drop_store sid s).1
  after (post sid x) s = (post_blob hash sid x s).1
  after (add sid id) s = (add_blob sid id s).1
  after (delete sid id) s = (delete_blob sid id s).1
  after (refer uses) s = record s { in_use = uses }

  -- The last call is the first of the list.
  unfoldable pub history : List Call → Db
  unfolding after
  history [] = new_db
  history (c ∷ cs) = after c (history cs)

  -- After every history of `CreateStore`, `DropStore`, `PostBlob`, `AddBlob` and `DeleteBlob`
  -- calls on a new database with foreign keys enforced, failed calls that are not rolled back
  -- included, with store ids other than 0 for `DeleteBlob`, and whatever stores jobs and
  -- artifacts refer to meanwhile: the reference count of every blob is the number of stores that
  -- hold it, a blob that is not there is held by none, and no store holds a blob twice.
  pub history-Counted : (cs : List Call) → NoZeroDeletes cs → Counted (history cs)
  unfolding history after
  history-Counted [] h = record { right = λ id. refl; unique = λ sid id. omega arith }
  history-Counted (create ∷ cs) h = create_store-Counted (history cs) (history-Counted cs h)
  history-Counted (drop sid ∷ cs) h = drop_store-Counted sid (history cs) (history-Counted cs h)
  history-Counted (post sid x ∷ cs) h =
      post_blob-Counted hash sid x (history cs) (history-Counted cs h)
  history-Counted (add sid id ∷ cs) h = add_blob-Counted sid id (history cs) (history-Counted cs h)
  history-Counted (delete sid id ∷ cs) h =
      delete_blob-Counted sid id h.0 (history cs) (history-Counted cs h.1)
  history-Counted (refer uses ∷ cs) h =
      let before = history-Counted cs h in record { right = before.right; unique = before.unique }
