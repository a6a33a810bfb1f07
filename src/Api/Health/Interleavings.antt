-- ===== src/Api/Health/Interleavings.antt =====
-- Every interleaving of the goroutines of the health check.
use mathlib.Core.Path.{subst}
use ach_orchestrator.Base.{
  Bool-cases, ap, ℕ, ◌+◌, ◌≤◌, ◌<◌, Bool, true, false, Option, none, some, inl, inr, ◌≡◌, ◌≢◌, refl,
  sym, ◌∙◌, arith, if◌then◌else◌,
}
use ach_orchestrator.Base.Text.{Text, codes}
use ach_orchestrator.Api.Health.{
  Dependency, postgres, redis, temporal, Each, of, with_value, Progress, calling, failed, locked,
  written, done, Check, check_started, error_text, advance_from, advance,
}

-- The states that some interleaving reaches, with the number of steps made.
pub data Reached (answers : Each (Option Text)) : Check → ℕ → Type 0 where
  at_start : Reached answers check_started 0
  stepped :
      {s s' : Check} {n : ℕ} (i : Dependency)
      → Reached answers s n
      → advance answers i s ≡ some s'
      → Reached answers s' (n + 1)

-- The text that the answer of a call comes to.
abbrev pub text_of : Option Text → Text
text_of none = codes "ok"
text_of (some message) = error_text message

-- What the status of a dependency says, as far as its goroutine has come.
abbrev IsTrue : Option Text → Progress → Text → Type 0
IsTrue answer calling status = status ≡ codes "ok"
IsTrue answer (failed message) status = (status ≡ codes "ok") × (answer ≡ some message)
IsTrue answer (locked message) status = (status ≡ codes "ok") × (answer ≡ some message)
IsTrue answer written status = status ≡ text_of answer
IsTrue answer done status = status ≡ text_of answer

-- One for a goroutine that holds `mu`.
abbrev pub holds : Progress → ℕ
holds (locked _) = 1
holds written = 1
holds _ = 0

-- The steps that a goroutine has left at most.
abbrev left : Progress → ℕ
left calling = 4
left (failed _) = 3
left (locked _) = 2
left written = 1
left done = 0

abbrev sum : Each ℕ → ℕ
sum e = e.on_postgres + e.on_redis + e.on_temporal

abbrev on_each : (Progress → ℕ) → Each Progress → Each ℕ
on_each f e = record {
  on_postgres = f e.on_postgres;
  on_redis = f e.on_redis;
  on_temporal = f e.on_temporal;
}

-- The statuses are true, `mu` is held by exactly the goroutine that is inside, and the steps made and
-- those left are twelve at most.
pub record IsGood (answers : Each (Option Text)) (s : Check) (n : ℕ) : Type 0 where
  pub truth : (i : Dependency) → IsTrue (of i answers) (of i s.progress) (of i s.status)
  pub exclusive : sum (on_each holds s.progress) ≡ (if s.mu then 1 else 0)
  pub budget : n + sum (on_each left s.progress) ≤ 12

start-IsGood : (answers : Each (Option Text)) → IsGood answers check_started 0
start-IsGood answers = record { truth = start_truth; exclusive = refl; budget = omega arith }
  where
    start_truth :
        (i : Dependency)
        → IsTrue (of i answers) (of i check_started.progress) (of i check_started.status)
    start_truth postgres = refl
    start_truth redis = refl
    start_truth temporal = refl

sum-with_value :
    (f : Progress → ℕ) (i : Dependency) (p : Progress) (e : Each Progress)
    → sum (on_each f (with_value i p e)) + f (of i e) ≡ sum (on_each f e) + f p
sum-with_value f postgres p e = omega arith
sum-with_value f redis p e = omega arith
sum-with_value f temporal p e = omega arith

inside_holds :
    (i : Dependency) (s : Check)
    → of i s.progress ≡ written
    → s.mu ≡ false
    → sum (on_each holds s.progress) ≢ (if s.mu then 1 else 0)
inside_holds postgres s at free e = ground arith
inside_holds redis s at free e = ground arith
inside_holds temporal s at free e = ground arith

module _ (answers : Each (Option Text)) where
  -- One goroutine moves on, and its status stays true.
  truth_put :
      (i j : Dependency) (p : Progress) (t : Text) (s : Check)
      → IsTrue (of i answers) p t
      → ((k : Dependency) → IsTrue (of k answers) (of k s.progress) (of k s.status))
      → IsTrue (of j answers) (of j (with_value i p s.progress)) (of j (with_value i t s.status))
  truth_put postgres postgres p t s h g = h
  truth_put postgres redis p t s h g = g redis
  truth_put postgres temporal p t s h g = g temporal
  truth_put redis postgres p t s h g = g postgres
  truth_put redis redis p t s h g = h
  truth_put redis temporal p t s h g = g temporal
  truth_put temporal postgres p t s h g = g postgres
  truth_put temporal redis p t s h g = g redis
  truth_put temporal temporal p t s h g = h

  put-IsGood :
      (i : Dependency) (q p : Progress) (t : Text) (m : Bool) (s : Check) (n : ℕ)
      → of i s.progress ≡ q
      → IsTrue (of i answers) p t
      → holds p + (if s.mu then 1 else 0) ≡ holds q + (if m then 1 else 0)
      → left p < left q
      → IsGood answers s n
      → IsGood answers
          (record {
            status = with_value i t s.status;
            progress = with_value i p s.progress;
            mu = m;
          })
          (n + 1)
  put-IsGood i q p t m s n at h same less g =
      let held = sum-with_value holds i p s.progress in
      let rest = sum-with_value left i p s.progress in
      record {
        truth = λ j. truth_put i j p t s h g.truth;
        exclusive = ground (arith, g.exclusive);
        budget = ground (arith, g.budget);
      }

  kept_status : (i : Dependency) (e : Each Text) → e ≡ with_value i (of i e) e
  kept_status postgres e = refl
  kept_status redis e = refl
  kept_status temporal e = refl

  -- A step that leaves the statuses alone.
  move-IsGood :
      (i : Dependency) (q p : Progress) (m : Bool) (s s' : Check) (n : ℕ)
      → of i s.progress ≡ q
      → IsTrue (of i answers) p (of i s.status)
      → holds p + (if s.mu then 1 else 0) ≡ holds q + (if m then 1 else 0)
      → left p < left q
      → some (record s { progress = with_value i p s.progress; mu = m }) ≡ some s'
      → IsGood answers s n
      → IsGood answers s' (n + 1)
  move-IsGood i q p m s s' n at h same less e g =
      subst (λ x. IsGood answers x (n + 1))
        (ap (λ t. record { status = t; progress = with_value i p s.progress; mu = m })
            (sym (kept_status i s.status))
          ∙ cc e)
        (put-IsGood i q p (of i s.status) m s n at h same less g)

  pub truth_at :
      (i : Dependency) (q : Progress) (s : Check) (n : ℕ)
      → of i s.progress ≡ q
      → IsGood answers s n
      → IsTrue (of i answers) q (of i s.status)
  truth_at i q s n at g = subst (λ x. IsTrue (of i answers) x (of i s.status)) at (g.truth i)

  -- Every step keeps it.
  pub step-IsGood :
      (i : Dependency) (q : Progress) (a : Option Text) (s s' : Check) (n : ℕ)
      → of i s.progress ≡ q
      → of i answers ≡ a
      → advance_from a i q s ≡ some s'
      → IsGood answers s n
      → IsGood answers s' (n + 1)
  step-IsGood i calling none s s' n at asked e g =
      move-IsGood i calling done s.mu s s' n at (truth_at i calling s n at g ∙ rw asked refl) refl
        (omega arith) e g
  step-IsGood i calling (some m) s s' n at asked e g =
      move-IsGood i calling (failed m) s.mu s s' n at (truth_at i calling s n at g, asked) refl
        (omega arith) e g
  step-IsGood i (failed m) a s s' n at asked e g = elim (Bool-cases s.mu) [
    | inl held ↦ absurd (ground arith)
    | inr free ↦
        move-IsGood i (failed m) (locked m) true s s' n at (truth_at i (failed m) s n at g)
          (rw free refl) (omega arith) (ground arith) g
  ]
  step-IsGood i (locked m) a s s' n at asked e g =
      let h = truth_at i (locked m) s n at g in
      subst (λ x. IsGood answers x (n + 1)) (cc e)
        (put-IsGood i (locked m) written (error_text m) s.mu s n at (rw h.1 refl) refl (omega arith)
          g)
  step-IsGood i written a s s' n at asked e g = elim (Bool-cases s.mu) [
    | inl held ↦
        move-IsGood i written done false s s' n at (truth_at i written s n at g) (rw held refl)
          (omega arith) e g
    | inr free ↦ absurd (inside_holds i s at free g.exclusive)
  ]
  step-IsGood i done a s s' n at asked e g = absurd (ground arith)

  pub Reached-IsGood : {s : Check} {n : ℕ} → Reached answers s n → IsGood answers s n
  unfolding advance
  Reached-IsGood at_start = start-IsGood answers
  Reached-IsGood (stepped {s} {s'} {n} i before e) =
      step-IsGood i (of i s.progress) (of i answers) s s' n refl refl e (Reached-IsGood before)
