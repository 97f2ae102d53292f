-- ===== src/JobSystem/Shared.antt =====
-- How often the work of a task runs, and what its jobs get (`onceGroup`, src/want/job.go).
use want.Common.{
  ℕ, ◌+◌, ◌≤◌, ◌≡◌, ◌⊎◌, refl, Bool, true, false, ◌==◌, none, some, arith, Option-cases, inl, inr,
  subst,
}
use want.WantJob.Results.{JobResult}
use want.JobSystem.Once.{
  Phase, waiting, missed, flying, joined, returned, Group, set, landed_phase, land, Step, hit, miss,
  join, late_hit, fly, arrive, Reached, begin, after,
}

landed-flying :
    (p : Phase) (same own : Bool) (r : JobResult)
    → landed_phase p same own r ≡ flying
    → (p ≡ flying) × (own ≡ false)
landed-flying flying same true r e = cc
landed-flying flying same false r e = (refl, refl)
landed-flying joined true own r e = cc
landed-flying joined false own r e = cc
landed-flying waiting same own r e = cc
landed-flying missed same own r e = cc
landed-flying (returned b x) same own r e = cc

landed-returned :
    (p : Phase) (same own : Bool) (r : JobResult) (b : Bool) (x : JobResult)
    → landed_phase p same own r ≡ returned b x
    → (p ≡ returned b x)
      ⊎ ((x ≡ r) × (((p ≡ flying) × (own ≡ true)) ⊎ ((p ≡ joined) × (same ≡ true))))
landed-returned flying same true r b x e = inr (cc, inl (refl, refl))
landed-returned flying same false r b x e = cc
landed-returned joined true own r b x e = inr (cc, inr (refl, refl))
landed-returned joined false own r b x e = cc
landed-returned waiting same own r b x e = cc
landed-returned missed same own r b x e = cc
landed-returned (returned c y) same own r b x e = inl e

module _ (task : ℕ → ℕ) where
  record Sound (g : Group) : Type 0 where
    -- The job that a flight belongs to is running `fn`, and the other way round.
    led : (k j : ℕ) → g.flight k ≡ some j → (g.phase j ≡ flying) × (task j ≡ k)
    flies : (j : ℕ) → g.phase j ≡ flying → g.flight (task j) ≡ some j
    -- A task has run once when it is cached or running, and else never.
    never : (k : ℕ) → g.flight k ≡ none → g.cache k ≡ none → g.runs k ≡ 0
    running : (k j : ℕ) → g.flight k ≡ some j → (g.cache k ≡ none) × (g.runs k ≡ 1)
    once : (k : ℕ) (r : JobResult) → g.cache k ≡ some r → g.runs k ≡ 1
    -- What a call has returned is in the cache.
    got : (j : ℕ) (b : Bool) (r : JobResult) → g.phase j ≡ returned b r → g.cache (task j) ≡ some r

  move-Sound :
      (g : Group) (j : ℕ) (q : Phase)
      → Sound g
      → (g.phase j ≡ flying → ⊥)
      → (q ≡ flying → ⊥)
      → ((b : Bool) (r : JobResult) → q ≡ returned b r → g.cache (task j) ≡ some r)
      → Sound (record g { phase = set g.phase j q })
  move-Sound g j q s before now new = record {
    led = λ k i e. grind (arith, s.led k i);
    flies = λ i e. grind (arith, s.flies i);
    never = s.never;
    running = s.running;
    once = s.once;
    got = λ i b x e. grind (arith, s.got i b x, new b x);
  }

  fly-Sound :
      (g : Group) (j : ℕ)
      → Sound g
      → g.phase j ≡ missed
      → g.flight (task j) ≡ none
      → g.cache (task j) ≡ none
      → Sound (record g {
        phase = set g.phase j flying;
        flight = set g.flight (task j) (some j);
        runs = set g.runs (task j) (g.runs (task j) + 1);
      })
  fly-Sound g j s p f c = record {
    led = λ k i e. grind (arith, s.led k i);
    flies = λ i e. grind (arith, s.flies i);
    never = λ k e d. grind (arith, s.never k);
    running = λ k i e. grind (arith, s.running k i, s.never k);
    once = λ k r e. grind (arith, s.once k r);
    got = λ i b x e. grind (arith, s.got i b x);
  }

  arrive-Sound :
      (g : Group) (j : ℕ) (r : JobResult)
      → Sound g
      → g.phase j ≡ flying
      → Sound (record g {
        phase = land task g.phase j r;
        cache = set g.cache (task j) (some r);
        flight = set g.flight (task j) none;
      })
  arrive-Sound g j r s p = record {
    led = λ k i e. grind (arith, s.led k i);
    flies = λ i e.
        let (f, o) = landed-flying (g.phase i) (task i == task j) (j == i) r e in
        grind (arith, s.flies i f, s.flies j p, f, o);
    never = λ k e d. grind (arith, s.never k);
    running = λ k i e. grind (arith, s.running k i);
    once = λ k x e. grind (arith, s.once k x, s.running k j, s.flies j p);
    got = λ i b x e. elim (landed-returned (g.phase i) (task i == task j) (j == i) r b x e) [
      | inl old ↦ grind (arith, s.got i b x old, s.running (task j) j, s.flies j p)
      | inr (same, inl (f, o)) ↦ grind (arith, same, o)
      | inr (same, inr (f, o)) ↦ grind (arith, same, o)
    ];
  }

  step-Sound : (g h : Group) → Sound g → Step task g h → Sound h
  step-Sound g h s (hit j r p c) =
      move-Sound g j (returned false r) s (λ e. cc) (λ e. cc) (λ b x e. cc)
  step-Sound g h s (miss j p c) = move-Sound g j missed s (λ e. cc) (λ e. cc) (λ b x e. cc)
  step-Sound g h s (join j i p f) = move-Sound g j joined s (λ e. cc) (λ e. cc) (λ b x e. cc)
  step-Sound g h s (late_hit j r p f c) =
      move-Sound g j (returned false r) s (λ e. cc) (λ e. cc) (λ b x e. cc)
  step-Sound g h s (fly j p f c) = fly-Sound g j s p f c
  step-Sound g h s (arrive j r p) = arrive-Sound g j r s p

  Reached-Sound : (g : Group) → Reached task g → Sound g
  Reached-Sound g begin = record {
    led = λ k j e. cc;
    flies = λ j e. cc;
    never = λ k e d. refl;
    running = λ k j e. cc;
    once = λ k r e. cc;
    got = λ j b r e. cc;
  }
  Reached-Sound h (after {g = g} r st) = step-Sound g h (Reached-Sound g r) st

  runs_once : (g : Group) → Sound g → (k : ℕ) → g.runs k ≤ 1
  runs_once g s k = elim (Option-cases (g.flight k)) [
    | inr (j, e) ↦ omega (arith, (s.running k j e).1)
    | inl e ↦ elim (Option-cases (g.cache k)) [
      | inl d ↦ omega (arith, s.never k e d)
      | inr (r, d) ↦ omega (arith, s.once k r d)
    ]
  ]

  -- However the workers' calls are ordered, the work of a task runs at most once, and all jobs of a
  -- task whose calls have returned have one result.
  pub shared_once :
      (g : Group)
      → Reached task g
      → ((k : ℕ) → g.runs k ≤ 1)
        × ((i j : ℕ) (b c : Bool) (x y : JobResult)
            → task i ≡ task j
            → g.phase i ≡ returned b x
            → g.phase j ≡ returned c y
            → x ≡ y)
  shared_once g r =
      let s = Reached-Sound g r in
      (
        λ k. runs_once g s k,
        λ i j b c x y same p q.
            let one = s.got i b x p in
            let two = s.got j c y q in
            let three : g.cache (task j) ≡ some x = subst (λ k. g.cache k ≡ some x) same one in cc,
      )
