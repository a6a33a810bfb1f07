-- ===== src/Api/Health/Answer.antt =====
-- The answer of the health check, and that it comes.
use ach_orchestrator.Base.{
  Bool-cases, ℕ, ◌≤◌, Bool, true, false, Option, none, some, inl, inr, ◌≡◌, ◌⊎◌, refl, arith, ◌&&◌,
  if◌then◌else◌,
}
use ach_orchestrator.Base.Text.{Text, codes, text_eq}
use ach_orchestrator.Api.Health.{
  Dependency, postgres, redis, temporal, Each, of, with_value, Progress, calling, failed, locked,
  written, done, Check, advance_from, advance, is_done, all_done, HealthResponse, health_response,
}
use ach_orchestrator.Api.Health.Interleavings.{Reached, Reached-IsGood, text_of, truth_at, holds}

-- A goroutine that is not done can move if `mu` is free, and one that holds `mu` in any case.
moves_free :
    (a : Option Text) (i : Dependency) (q : Progress) (s : Check)
    → s.mu ≡ false
    → (q ≡ done) ⊎ ((s' : Check) × (advance_from a i q s ≡ some s'))
moves_free none i calling s free = inr (_, refl)
moves_free (some m) i calling s free = inr (_, refl)
moves_free a i (failed m) s free =
    inr (record s { progress = with_value i (locked m) s.progress; mu = true }, rw free refl)
moves_free a i (locked m) s free = inr (_, refl)
moves_free a i written s free = inr (_, refl)
moves_free a i done s free = inl refl

moves_inside :
    (a : Option Text) (i : Dependency) (q : Progress) (s : Check)
    → (holds q ≡ 0) ⊎ ((s' : Check) × (advance_from a i q s ≡ some s'))
moves_inside a i (locked m) s = inr (_, refl)
moves_inside a i written s = inr (_, refl)
moves_inside a i _ s = inl refl

-- One of three has what it takes, or none.
one_of :
    {P Q : Dependency → Type 0}
    → ((i : Dependency) → P i ⊎ Q i)
    → (P postgres × P redis × P temporal) ⊎ ((i : Dependency) × Q i)
one_of h = elim (h postgres) [
  | inr q ↦ inr (postgres, q)
  | inl a ↦ elim (h redis) [
    | inr q ↦ inr (redis, q)
    | inl b ↦ elim (h temporal) [ inr q ↦ inr (temporal, q) | inl c ↦ inl (a, b, c) ]
  ]
]

-- No error.
abbrev pub is_up : Option Text → Bool
is_up none = true
is_up (some _) = false

says_ok : (answer : Option Text) → text_eq (text_of answer) (codes "ok") ≡ is_up answer
unfolding text_eq
says_ok none = refl
says_ok (some message) = refl

is_done-done : (p : Progress) → is_done p ≡ true → p ≡ done
is_done-done done h = refl
is_done-done _ h = ground arith

module _ (answers : Each (Option Text)) where
  all_finished : (i : Dependency) (s : Check) → all_done s ≡ true → of i s.progress ≡ done
  all_finished postgres s h = is_done-done s.progress.on_postgres (ground arith)
  all_finished redis s h = is_done-done s.progress.on_redis (ground arith)
  all_finished temporal s h = is_done-done s.progress.on_temporal (ground arith)

  -- What the handler has to answer: 200 if no call returned an error, and 503 otherwise.
  abbrev pub reference : HealthResponse
  reference =
      let status : Each Text = record {
        on_postgres = text_of answers.on_postgres;
        on_redis = text_of answers.on_redis;
        on_temporal = text_of answers.on_temporal;
      } in
      if is_up answers.on_postgres && (is_up answers.on_redis && is_up answers.on_temporal)
      then record { status = codes "ok"; dependencies = status; status_code = 200 }
      else record { status = codes "degraded"; dependencies = status; status_code = 503 }

  settled_status :
      {s : Check} {n : ℕ} (i : Dependency)
      → Reached answers s n
      → all_done s ≡ true
      → of i s.status ≡ text_of (of i answers)
  settled_status {s} {n} i r h =
      truth_at answers i done s n (all_finished i s h) (Reached-IsGood answers r)

  statuses-reference :
      (status : Each Text)
      → ((i : Dependency) → of i status ≡ text_of (of i answers))
      → health_response status ≡ reference
  unfolding health_response
  statuses-reference status h =
      rw
        (
          h postgres,
          h redis,
          h temporal,
          says_ok answers.on_postgres,
          says_ok answers.on_redis,
          says_ok answers.on_temporal,
        )
        (ground arith)

  -- Whatever the order in which the three goroutines make their steps and take `mu`: once all are
  -- done, the answer is the same, that of a check which asks one dependency after the other. It is
  -- 200 with `ok` exactly if no call returned an error, and 503 with each error in its place
  -- otherwise.
  pub health_response-reference :
      {s : Check} {n : ℕ}
      → Reached answers s n
      → all_done s ≡ true
      → health_response s.status ≡ reference
  health_response-reference {s} r h = statuses-reference s.status (λ i. settled_status i r h)

  -- As long as a goroutine is not done, one of the three can make a step, so the lock never blocks
  -- them all; and no interleaving has more than twelve steps.
  pub advance_progress :
      {s : Check} {n : ℕ}
      → Reached answers s n
      → (n ≤ 12)
        × ((all_done s ≡ true)
            ⊎ ((i : Dependency) × (s' : Check) × (advance answers i s ≡ some s')))
  unfolding advance
  advance_progress {s} {n} r =
      let g = Reached-IsGood answers r in
      (
        omega (arith, g.budget),
        elim (Bool-cases s.mu) [
          | inl held ↦ elim (one_of (λ i. moves_inside (of i answers) i (of i s.progress) s)) [
            | inr (i, (s', e)) ↦ inr (i, s', e)
            | inl (a, b, c) ↦ absurd (ground (arith, g.exclusive))
          ]
          | inr free ↦ elim (one_of (λ i. moves_free (of i answers) i (of i s.progress) s free)) [
            | inr (i, (s', e)) ↦ inr (i, s', e)
            | inl (a, b, c) ↦ inl (rw (a, b, c) refl)
          ]
        ],
      )
