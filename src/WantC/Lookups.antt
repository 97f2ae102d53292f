-- ===== src/WantC/Lookups.antt =====
-- What `Get`, `Add` and `Delete` of the VFS (vfs.go) find and leave.
use want.Common.{
  ℕ, zero, suc, ◌≡◌, refl, sym, ap, subst, inl, inr, Bool, false, bnot, Bool-cases, Option, none,
  some, Option-cases, List, [], ◌∷◌, ◌++◌, length, arith,
}
use want.Common.Text.{Str, str_eq}
use want.Common.Outcome.{done_inj, done, bind_done}
use want.Common.Result.{ok}
use want.StringSets.Sets.{Set, empty, deep_equal}
use want.WantC.Vfs.{
  Entry, VfsNode, Children, vfs_node, no_children, child, node_path, parent_of, new_vfs, find_child,
  set_child, all_ents, all_child_ents, closest, update_at, up_ents, meets, struck, filter, vfs_get,
  push_entry, add_unless, vfs_add, keep_entries, delete_up, vfs_delete, closest_path,
}

module _ {E : Type 0} where
  abbrev mutual
    -- No node has a parent.
    pub Orphans : VfsNode E → Type 0
    Orphans (vfs_node up cs es) = (up ≡ none) × AllOrphans cs

    pub AllOrphans : Children E → Type 0
    AllOrphans no_children = Unit
    AllOrphans (child k n cs) = Orphans n × AllOrphans cs

  find_child-Orphans :
      (p : Str) (cs : Children E) (c : VfsNode E)
      → AllOrphans cs
      → find_child p cs ≡ some c
      → Orphans c
  find_child-Orphans p no_children c h e = cc
  find_child-Orphans p (child k n cs) c h e = elim (Bool-cases (str_eq k p)) [
    | inl q ↦ let same : n ≡ c = ground (arith, e, q) in subst Orphans same h.0
    | inr q ↦ find_child-Orphans p cs c h.1 (ground (arith, e, q))
  ]

  set_child-Orphans :
      (p : Str) (n : VfsNode E) (cs : Children E)
      → Orphans n
      → AllOrphans cs
      → AllOrphans (set_child p n cs)
  set_child-Orphans p n no_children h hs = (h, tt)
  set_child-Orphans p n (child k m cs) h hs = elim (Bool-cases (str_eq k p)) [
    | inl q ↦ rw q (h, hs.1)
    | inr q ↦ rw q (hs.0, set_child-Orphans p n cs h hs.1)
  ]

  pub update_at-Orphans :
      (f : VfsNode E → VfsNode E)
      → ((n : VfsNode E) → Orphans n → Orphans (f n))
      → (n : VfsNode E) (ps : List Str) → Orphans n
      → Orphans (update_at f n ps)
  unfolding update_at
  update_at-Orphans f keep n [] h = keep n h
  update_at-Orphans f keep (vfs_node up cs es) (p ∷ ps) h = elim (Option-cases (find_child p cs)) [
    | inl e ↦ rw e (
      h.0,
      set_child-Orphans p _ cs (update_at-Orphans f keep (vfs_node up no_children []) ps (h.0, tt))
          h.1,
    )
    | inr (c, e) ↦ rw e (
      h.0,
      set_child-Orphans p _ cs (update_at-Orphans f keep c ps (find_child-Orphans p cs c h.1 e))
          h.1,
    )
  ]

  push_entry-Orphans : (x : Entry E) (n : VfsNode E) → Orphans n → Orphans (push_entry x n)
  push_entry-Orphans x (vfs_node up cs es) h = h

  keep_entries-Orphans :
      (t : Entry E → Bool) (n : VfsNode E) → Orphans n → Orphans (keep_entries t n)
  keep_entries-Orphans t (vfs_node up cs es) h = h

  closest-none :
      (up : Option (List Str)) (cs : Children E) (es : List (Entry E)) (p : Str) (ps : List Str)
      → find_child p cs ≡ none
      → closest (vfs_node up cs es) (p ∷ ps) ≡ vfs_node up cs es
  unfolding closest
  closest-none up cs es p ps e = ground (arith, e)

  closest-some :
      (up : Option (List Str)) (cs : Children E) (es : List (Entry E)) (p : Str) (ps : List Str)
      (c : VfsNode E)
      → find_child p cs ≡ some c
      → closest (vfs_node up cs es) (p ∷ ps) ≡ closest c ps
  unfolding closest
  closest-some up cs es p ps c e = ground (arith, e)

  closest-Orphans : (n : VfsNode E) (ps : List Str) → Orphans n → Orphans (closest n ps)
  unfolding closest
  closest-Orphans n [] h = h
  closest-Orphans (vfs_node up cs es) (p ∷ ps) h = elim (Option-cases (find_child p cs)) [
    | inl e ↦ subst Orphans (sym (closest-none up cs es p ps e)) h
    | inr (c, e) ↦
        subst Orphans (sym (closest-some up cs es p ps c e))
          (closest-Orphans c ps (find_child-Orphans p cs c h.1 e))
  ]

  closest-parent : (v : VfsNode E) (ps : List Str) → Orphans v → parent_of (closest v ps) ≡ none
  closest-parent v ps h = parent-Orphans (closest v ps) (closest-Orphans v ps h)
    where
      parent-Orphans : (n : VfsNode E) → Orphans n → parent_of n ≡ none
      parent-Orphans (vfs_node up cs es) h = h.0

  append-empty : (es : List (Entry E)) → es ++ [] ≡ es
  append-empty [] = refl
  append-empty (e ∷ es) = ap (◌∷◌ e) (append-empty es)

  -- Without parents, `Get` finds the entries below the closest node that intersect.
  vfs_get-Orphans :
      (f : ℕ) (v : VfsNode E) (k : Set) (ps : List Str)
      → Orphans v
      → deep_equal k empty ≡ false
      → node_path f k ≡ done ps
      → vfs_get f v k ≡ done (filter (meets k) (all_ents (closest v ps)))
  unfolding vfs_get up_ents
  vfs_get-Orphans f v k ps h ne e =
      let alone = closest-parent v ps h in rw (ne, e, alone) (ap done (append-empty _))

  delete_up-Orphans :
      (f : ℕ) (k : Set) (v w : VfsNode E) (up : Option (List Str))
      → Orphans v
      → delete_up f k v up ≡ done w
      → Orphans w
  unfolding delete_up
  delete_up-Orphans f k v w none h e = subst Orphans (done_inj e) h
  delete_up-Orphans zero k v w (some p) h e = cc
  delete_up-Orphans (suc f) k v w (some p) h e =
      delete_up-Orphans f k _ w _
        (update_at-Orphans (keep_entries (λ x. bnot (struck k x)))
          (keep_entries-Orphans (λ x. bnot (struck k x))) v p h)
        e

  -- The trees that calls of `Add` and `Delete` make of an empty one.
  pub data Reached : VfsNode E → Type 0 where
    start : Reached new_vfs
    added :
        {v w : VfsNode E} (f : ℕ) (x : Entry E)
        → Reached v
        → vfs_add f v x ≡ done (ok w)
        → Reached w
    deleted :
        {v w : VfsNode E} (f : ℕ) (k : Set) → Reached v → vfs_delete f v k ≡ done w → Reached w

  add_unless-ok :
      (x : Entry E) (v : VfsNode E) (es : List (Entry E)) (u w : VfsNode E)
      → add_unless x v es (ok u) ≡ ok w
      → u ≡ w
  add_unless-ok x v [] u w h = cc
  add_unless-ok x v (e ∷ es) u w h = cc

  Reached-Orphans : (v : VfsNode E) → Reached v → Orphans v
  unfolding vfs_add vfs_delete
  Reached-Orphans v start = (refl, tt)
  Reached-Orphans w (added {v = v} f x r e) =
      let (ents, e1, more) = bind_done _ (vfs_get f v x.k) e in
      let (p, e2, last) = bind_done _ (node_path f x.k) more in
      subst Orphans (add_unless-ok x v ents _ w (done_inj last))
        (update_at-Orphans (push_entry x) (push_entry-Orphans x) v p (Reached-Orphans v r))
  Reached-Orphans w (deleted {v = v} f k r e) =
      let (p, e1, more) = bind_done _ (node_path f k) e in
      delete_up-Orphans (suc (suc (length p))) k v w (some (closest_path v p)) (Reached-Orphans v r)
        more

  -- In a tree that calls of `Add` and `Delete` have made, `Get` returns those entries below the
  -- closest node to the path of a set that intersect the set, and no entry of the nodes above it: the
  -- parents that it would look through are never set.
  pub vfs_get_lem :
      (f : ℕ) (v : VfsNode E) (k : Set) (ps : List Str)
      → Reached v
      → deep_equal k empty ≡ false
      → node_path f k ≡ done ps
      → vfs_get f v k ≡ done (filter (meets k) (all_ents (closest v ps)))
  vfs_get_lem f v k ps r ne e = vfs_get-Orphans f v k ps (Reached-Orphans v r) ne e

  filter-append :
      (t : Entry E → Bool) (es ds : List (Entry E))
      → filter t (es ++ ds) ≡ []
      → (filter t es ≡ []) × (filter t ds ≡ [])
  filter-append t [] ds h = (refl, h)
  filter-append t (e ∷ es) ds h = elim (Bool-cases (t e)) [
    | inl q ↦ cc
    | inr q ↦
        let less : filter t (es ++ ds) ≡ [] = ground (arith, h, q) in
        let (a, b) = filter-append t es ds less in (rw q a, b)
  ]

  find_child-filter :
      (t : Entry E → Bool) (p : Str) (cs : Children E) (c : VfsNode E)
      → find_child p cs ≡ some c
      → filter t (all_child_ents cs) ≡ []
      → filter t (all_ents c) ≡ []
  unfolding all_ents all_child_ents
  find_child-filter t p no_children c e h = cc
  find_child-filter t p (child k n cs) c e h = elim (Bool-cases (str_eq k p)) [
    | inl q ↦
        let same : n ≡ c = ground (arith, e, q) in
        subst (λ m. filter t (all_ents m) ≡ []) same
          ((filter-append t (all_ents n) (all_child_ents cs) h).0)
    | inr q ↦
        find_child-filter t p cs c (ground (arith, e, q))
          ((filter-append t (all_ents n) (all_child_ents cs) h).1)
  ]

  -- Nothing below a node is nothing below a closer one.
  closest-filter :
      (t : Entry E → Bool) (n : VfsNode E) (ps : List Str)
      → filter t (all_ents n) ≡ []
      → filter t (all_ents (closest n ps)) ≡ []
  unfolding closest all_ents all_child_ents
  closest-filter t n [] h = h
  closest-filter t (vfs_node up cs es) (p ∷ ps) h = elim (Option-cases (find_child p cs)) [
    | inl e ↦ subst (λ m. filter t (all_ents m) ≡ []) (sym (closest-none up cs es p ps e)) h
    | inr (c, e) ↦
        subst (λ m. filter t (all_ents m) ≡ []) (sym (closest-some up cs es p ps c e))
          (closest-filter t c ps
            (find_child-filter t p cs c e ((filter-append t (all_child_ents cs) es h).0)))
  ]

  -- `Add` sees no conflict with an entry outside the child of the root that the path of the new set
  -- begins with: when there is such a child and no entry below it intersects the set, the entry is
  -- added, whatever the entries of the root and of its other children are.
  pub vfs_add_unseen :
      (f : ℕ) (up : Option (List Str)) (cs : Children E) (es : List (Entry E)) (c : VfsNode E)
      (x : Entry E) (d : Str) (ps : List Str)
      → Reached (vfs_node up cs es)
      → deep_equal x.k empty ≡ false
      → node_path f x.k ≡ done (d ∷ ps)
      → find_child d cs ≡ some c
      → filter (meets x.k) (all_ents c) ≡ []
      → vfs_add f (vfs_node up cs es) x
        ≡ done (ok (update_at (push_entry x) (vfs_node up cs es) (d ∷ ps)))
  unfolding vfs_add
  vfs_add_unseen f up cs es c x d ps r ne path at clear =
      let got = vfs_get_lem f (vfs_node up cs es) x.k (d ∷ ps) r ne path in
      let below : filter (meets x.k) (all_ents (closest (vfs_node up cs es) (d ∷ ps))) ≡ [] =
        subst (λ m. filter (meets x.k) (all_ents m) ≡ []) (sym (closest-some up cs es d ps c at))
          (closest-filter (meets x.k) c ps clear) in
      rw (got, path, below) refl
