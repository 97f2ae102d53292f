-- ===== src/WantC/Vfs.antt =====
-- vfs.go: the entries of a module by the bounding prefix of the paths that they stand for. A map is a list;
-- a node's parent is the path to it from the root. `E` is the type of the values of entries.
use want.Common.{
  ℕ, zero, suc, Bool, bnot, if◌then◌else◌, Option, none, some, List, [], ◌∷◌, ◌++◌, length,
}
use want.Common.Text.{Str, str_eq}
use want.Common.Strings.{split_on, trim}
use want.Common.Outcome.{Outcome, out_of_fuel, panic, done, ◌>>=◌}
use want.Common.Result.{Result, ok, err}
use want.StringSets.Sets.{Set, empty, deep_equal}
use want.StringSets.Simplify.{decide_intersects}
use want.StringSets.Bounding.{bounding_within}

-- `VFSEntry`.
pub record Entry (E : Type 0) : Type 0 where
  pub k : Set
  pub v : E
  pub place_at : Str
  pub is_submodule : Bool
  pub defined_in : Str
  pub defined_num : ℕ

mutual
  -- `vfsNode`: parent, children and entries.
  pub data VfsNode (E : Type 0) : Type 0 where
    vfs_node : Option (List Str) → Children E → List (Entry E) → VfsNode E

  pub data Children (E : Type 0) : Type 0 where
    no_children : Children E
    child : Str → VfsNode E → Children E → Children E

-- `nodePath`, with `f` levels of calls in `BoundingPrefix`.
unfoldable pub node_path : ℕ → Set → Outcome (List Str)
unfolding split_on trim bounding_within
node_path f ks = do bp ← bounding_within f ks; done (split_on b'/' [] (trim bp))

module _ {E : Type 0} where
  abbrev pub parent_of : VfsNode E → Option (List Str)
  parent_of (vfs_node up cs es) = up

  abbrev pub ents_of : VfsNode E → List (Entry E)
  ents_of (vfs_node up cs es) = es

  -- `VFS{}`.
  abbrev pub new_vfs : VfsNode E
  new_vfs = vfs_node none no_children []

  abbrev pub find_child : Str → Children E → Option (VfsNode E)
  find_child k no_children = none
  find_child k (child j n cs) = if str_eq j k then some n else find_child k cs

  abbrev pub set_child : Str → VfsNode E → Children E → Children E
  set_child k n no_children = child k n no_children
  set_child k n (child j m cs) = if str_eq j k then child j n cs else child j m (set_child k n cs)

  unfoldable mutual
    -- The entries that `ForEach` visits with a function that does not stop it. The order of the children
    -- is that of the list, where Go's order of a map is left open.
    pub all_ents : VfsNode E → List (Entry E)
    all_ents (vfs_node up cs es) = all_child_ents cs ++ es

    pub all_child_ents : Children E → List (Entry E)
    all_child_ents no_children = []
    all_child_ents (child k n cs) = all_ents n ++ all_child_ents cs

  abbrev pub or_here : VfsNode E → Option (VfsNode E) → VfsNode E
  or_here n none = n
  or_here n (some m) = m

  -- `Closest`.
  unfoldable pub closest : VfsNode E → List Str → VfsNode E
  closest n [] = n
  closest (vfs_node up cs es) (p ∷ ps) = elim (find_child p cs) [
    | none ↦ vfs_node up cs es
    | some c ↦ closest c ps
  ]

  -- `Add` on a node, and what the caller does to the node that it returns: `f`. A new child takes the parent of
  -- this node for its own.
  unfoldable pub update_at : (VfsNode E → VfsNode E) → VfsNode E → List Str → VfsNode E
  update_at f n [] = f n
  update_at f (vfs_node up cs es) (p ∷ ps) =
      let fresh = update_at f (vfs_node up no_children []) ps in
      vfs_node up
        (elim (find_child p cs) [
          | none ↦ set_child p fresh cs
          | some c ↦ set_child p (update_at f c ps) cs
        ])
        es

  -- The entries of a node's parents, on fuel for their number.
  unfoldable pub up_ents : ℕ → VfsNode E → Option (List Str) → Outcome (List (Entry E))
  unfolding closest
  up_ents f v none = done []
  up_ents zero v (some p) = out_of_fuel
  up_ents (suc f) v (some p) = do
    rest ← up_ents f v (parent_of (closest v p))
    done (ents_of (closest v p) ++ rest)

  -- `stringsets.Intersects(ent.K, k)`.
  unfoldable pub meets : Set → Entry E → Bool
  unfolding decide_intersects
  meets k e = decide_intersects e.k k

  abbrev pub filter : (Entry E → Bool) → List (Entry E) → List (Entry E)
  filter t [] = []
  filter t (e ∷ es) = if t e then e ∷ filter t es else filter t es

  -- `VFS.Get`.
  unfoldable pub vfs_get : ℕ → VfsNode E → Set → Outcome (List (Entry E))
  unfolding deep_equal node_path closest all_ents up_ents meets
  vfs_get f v k =
      let found = (do
        p ← node_path f k
        more ← up_ents (suc (length p)) v (parent_of (closest v p))
        done (filter (meets k) (all_ents (closest v p)) ++ filter (meets k) more)) in
      if deep_equal k empty then panic else found

  abbrev pub push_entry : Entry E → VfsNode E → VfsNode E
  push_entry x (vfs_node up cs es) = vfs_node up cs (es ++ x ∷ [])

  -- `ErrConflict`, of the two sets, or the new tree.
  abbrev pub add_unless :
      Entry E
      → VfsNode E
      → List (Entry E)
      → Result (Set × Set) (VfsNode E)
      → Result (Set × Set) (VfsNode E)
  add_unless x v [] added = added
  add_unless x v (e ∷ es) added = err (e.k, x.k)

  -- `VFS.Add`.
  unfoldable pub vfs_add : ℕ → VfsNode E → Entry E → Outcome (Result (Set × Set) (VfsNode E))
  unfolding vfs_get node_path update_at
  vfs_add f v x = do
    ents ← vfs_get f v x.k
    p ← node_path f x.k
    done (add_unless x v ents (ok (update_at (push_entry x) v p)))

  -- The part of a path that there are nodes for.
  unfoldable pub closest_path : VfsNode E → List Str → List Str
  closest_path n [] = []
  closest_path (vfs_node up cs es) (p ∷ ps) = elim (find_child p cs) [
    | none ↦ []
    | some c ↦ p ∷ closest_path c ps
  ]

  abbrev pub keep_entries : (Entry E → Bool) → VfsNode E → VfsNode E
  keep_entries t (vfs_node up cs es) = vfs_node up cs (filter t es)

  -- `stringsets.Intersects(ks, x.K)`, which is not the same the other way round.
  unfoldable pub struck : Set → Entry E → Bool
  unfolding decide_intersects
  struck k e = decide_intersects k e.k

  -- The loop of `Delete` from the node at a path upwards, on fuel for the number of nodes.
  unfoldable pub delete_up : ℕ → Set → VfsNode E → Option (List Str) → Outcome (VfsNode E)
  unfolding closest update_at struck
  delete_up f k v none = done v
  delete_up zero k v (some p) = out_of_fuel
  delete_up (suc f) k v (some p) =
      delete_up f k (update_at (keep_entries (λ e. bnot (struck k e))) v p)
        (parent_of (closest v p))

  -- `VFS.Delete`.
  unfoldable pub vfs_delete : ℕ → VfsNode E → Set → Outcome (VfsNode E)
  unfolding node_path closest_path delete_up
  vfs_delete f v k = do
    p ← node_path f k
    delete_up (suc (suc (length p))) k v (some (closest_path v p))
