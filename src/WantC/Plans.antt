-- ===== src/WantC/Plans.antt =====
-- `Plan`, `PostPlan` and `GetPlan` (plan.go). The record `PlanCodec` stands for JSON and for the reading of blobs.
use want.Common.{
  ℕ, suc, ◌-◌, ◌≡◌, refl, ap, ◌∙◌, subst, if◌then◌else◌, Bool, true, false, Option, none, some,
  List, [], ◌∷◌, ◌++◌, length, ◌==◌, arith,
}
use want.Common.Text.{Str, bytes, str_eq, has_prefix}
use want.Common.Hex.{zeros}
use want.Common.Decimal.{decimal}
use want.Common.Result.{Result, ok, err, ◌>>=◌}
use want.WantC.Compile.{GlfsEntry, Backend}
use want.WantC.Targets.{Target}

-- `Plan`.
pub record Plan (Ref : Type 0) : Type 0 where
  pub known : Ref
  pub targets : List (Target Ref)

pub data PlanError : Type 0 where
  post_failed read_failed bad_json missing_known wrong_count : PlanError
  unknown_entry : Str → PlanError
  mismatched : ℕ → PlanError

pub record PlanCodec (Ref : Type 0) : Type 0 where
  -- `json.Marshal` of a plan, and `json.Unmarshal` over a plan.
  pub marshal : Plan Ref → Str
  pub unmarshal : Str → Plan Ref → Option (Plan Ref)
  -- `GetBlobBytes` from the store.
  pub get_blob : Ref → Option Str
  -- `glfs.Ref{}`, and `Equals` and `==` of references.
  pub no_ref : Ref
  pub ref_eq : Ref → Ref → Bool

-- `fmt.Sprintf` with `%08d`.
unfoldable pub decimal_padded : ℕ → ℕ → Str
unfolding decimal
decimal_padded w n = let s = decimal n in zeros (w - length s) ++ s

module _ {Ref : Type 0} where
  abbrev pub an_entry : Str → Ref → GlfsEntry Ref
  an_entry name r = record { name = name; mode = 511; ref = r }

  -- The loop of `PostPlan` over the targets, from number `i` on.
  unfoldable pub dag_entries : ℕ → List (Target Ref) → List (GlfsEntry Ref)
  unfolding decimal_padded
  dag_entries i [] = []
  dag_entries i (t ∷ ts) =
      an_entry (bytes "dag_" ++ decimal_padded 8 i) t.dag ∷ dag_entries (suc i) ts

  -- The entries that `PostPlan` posts, `r` being the reference of the JSON.
  unfoldable pub plan_entries : Plan Ref → Ref → List (GlfsEntry Ref)
  unfolding dag_entries
  plan_entries p r =
      an_entry (bytes "plan.json") r ∷ an_entry (bytes "known") p.known ∷ dag_entries 0 p.targets

  module _ (be : Backend Ref) (c : PlanCodec Ref) where
    abbrev pub or_failed : Option Ref → Result PlanError Ref
    or_failed none = err post_failed
    or_failed (some r) = ok r

    -- `PostPlan`.
    unfoldable pub post_plan : Plan Ref → Result PlanError Ref
    unfolding plan_entries
    post_plan p =
        or_failed (be.post_blob (c.marshal p)) >>= λ r. or_failed (be.post_tree (plan_entries p r))

  module _ (c : PlanCodec Ref) where
    abbrev pub blob_read : Option Str → Result PlanError Str
    blob_read none = err read_failed
    blob_read (some x) = ok x

    abbrev pub unmarshalled : Option (Plan Ref) → Result PlanError (Plan Ref)
    unmarshalled none = err bad_json
    unmarshalled (some p) = ok p

    -- The loop of `GetPlan` over the entries, with the plan and the graphs so far.
    unfoldable pub read_entries :
        Plan Ref → List Ref → List (GlfsEntry Ref) → Result PlanError (Plan Ref × List Ref)
    unfolding str_eq has_prefix
    read_entries p dags [] = ok (p, dags)
    read_entries p dags (e ∷ es) =
        if str_eq e.name (bytes "plan.json")
        then (blob_read (c.get_blob e.ref) >>= λ x.
            unmarshalled (c.unmarshal x p) >>= λ q. read_entries q dags es)
        else if str_eq e.name (bytes "known")
        then read_entries (record p { known = e.ref }) dags es
        else if has_prefix e.name (bytes "dag_")
        then read_entries p (dags ++ e.ref ∷ []) es
        else err (unknown_entry e.name)

    -- The last loop of `GetPlan`, from number `i` on.
    unfoldable pub check_dags : ℕ → List Ref → List (Target Ref) → Result PlanError (Unit {0})
    check_dags i [] ts = ok tt
    check_dags i (d ∷ ds) [] = err wrong_count
    check_dags i (d ∷ ds) (t ∷ ts) =
        let rest = check_dags (suc i) ds ts in if c.ref_eq d t.dag then rest else err (mismatched i)

    -- What `GetPlan` checks in the end.
    unfoldable pub check_plan : Plan Ref → List Ref → Result PlanError (Plan Ref)
    unfolding check_dags
    check_plan p dags =
        if c.ref_eq p.known c.no_ref
        then err missing_known
        else if length p.targets == length dags
        then (check_dags 0 dags p.targets >>= λ u. ok p)
        else err wrong_count

    -- `GetPlan`, of the entries of the tree.
    unfoldable pub get_plan : List (GlfsEntry Ref) → Result PlanError (Plan Ref)
    unfolding read_entries check_plan
    get_plan es = read_entries (record { known = c.no_ref; targets = [] }) [] es >>= λ r.
        check_plan (r.0) (r.1)

    abbrev dags_of : List (Target Ref) → List Ref
    dags_of [] = []
    dags_of (t ∷ ts) = t.dag ∷ dags_of ts

    length-dags_of : (ts : List (Target Ref)) → length (dags_of ts) ≡ length ts
    length-dags_of [] = refl
    length-dags_of (t ∷ ts) = ap suc (length-dags_of ts)

    nil_right : {A : Type 0} (xs : List A) → xs ++ [] ≡ xs
    nil_right [] = refl
    nil_right (x ∷ xs) = ap (◌∷◌ x) (nil_right xs)

    append_one : (ds : List Ref) (d : Ref) (es : List Ref) → (ds ++ d ∷ []) ++ es ≡ ds ++ d ∷ es
    append_one [] d es = refl
    append_one (x ∷ ds) d es = ap (◌∷◌ x) (append_one ds d es)

    read_entries-dags :
        (p : Plan Ref) (ds : List Ref) (i : ℕ) (ts : List (Target Ref)) (es : List (GlfsEntry Ref))
        → read_entries p ds (dag_entries i ts ++ es) ≡ read_entries p (ds ++ dags_of ts) es
    unfolding read_entries dag_entries str_eq has_prefix
    read_entries-dags p ds i [] es = rw (nil_right ds) refl
    read_entries-dags p ds i (t ∷ ts) es =
        read_entries-dags p (ds ++ t.dag ∷ []) (suc i) ts es
        ∙ ap (λ l. read_entries p l es) (append_one ds t.dag (dags_of ts))

    check_dags-same :
        ((r : Ref) → c.ref_eq r r ≡ true)
        → (i : ℕ) (ts : List (Target Ref)) → check_dags i (dags_of ts) ts ≡ ok tt
    unfolding check_dags
    check_dags-same same i [] = refl
    check_dags-same same i (t ∷ ts) = rw (same t.dag) (check_dags-same same (suc i) ts)

    check_plan-same :
        ((r : Ref) → c.ref_eq r r ≡ true)
        → (p : Plan Ref) → c.ref_eq p.known c.no_ref ≡ false
        → check_plan p (dags_of p.targets) ≡ ok p
    unfolding check_plan
    check_plan-same same p known =
        let count : (length p.targets == length (dags_of p.targets)) ≡ true =
          ground (arith, length-dags_of p.targets) in
        rw (known, count, check_dags-same same 0 p.targets) refl

    -- `GetPlan` gives back the plan that `PostPlan` posts, with its entries in the order in which they
    -- are posted and in the order of their names, when blobs are read back and JSON gives back what it was
    -- made of, a reference equals itself, and the plan has a tree of known files.
    pub get_plan-plan_entries :
        (p : Plan Ref) (r : Ref)
        → c.get_blob r ≡ some (c.marshal p)
        → ((q : Plan Ref) → c.unmarshal (c.marshal p) q ≡ some p)
        → ((x : Ref) → c.ref_eq x x ≡ true)
        → c.ref_eq p.known c.no_ref ≡ false
        → (get_plan (plan_entries p r) ≡ ok p)
          × (get_plan (
                dag_entries 0 p.targets
                ++ an_entry (bytes "known") p.known ∷ an_entry (bytes "plan.json") r ∷ [])
              ≡ ok p)
    unfolding get_plan read_entries plan_entries str_eq has_prefix
    get_plan-plan_entries p r reads decodes same known =
        let q : Plan Ref = record { known = c.no_ref; targets = [] } in
        let checked = check_plan-same same p known in
        let all : read_entries p [] (dag_entries 0 p.targets) ≡ ok (p, dags_of p.targets) =
          subst (λ es. read_entries p [] es ≡ ok (p, dags_of p.targets))
            (nil_right (dag_entries 0 p.targets)) (read_entries-dags p [] 0 p.targets []) in
        (
          rw (reads, decodes q, all, checked) refl,
          rw
              (
                read_entries-dags q [] 0 p.targets
                    (an_entry (bytes "known") p.known ∷ an_entry (bytes "plan.json") r ∷ []),
                reads,
                decodes (record q { known = p.known }),
                checked,
              )
              refl,
        )
