-- ===== src/Workflow/Outcome.antt =====
-- How far a run of the workflow came along the steps that are prescribed, and the rule for one step.
use mathlib.Core.List.{append-nil, append_assoc}
use ach_orchestrator.Base.{
  ℕ, true, inl, inr, List, [], ◌∷◌, ◌++◌, ◌≡◌, ◌≢◌, ◌⊎◌, refl, sym, ap, arith,
}
use ach_orchestrator.Domain.Payment.{PaymentState}
use ach_orchestrator.Domain.Rules.{is_transition_allowed, is_terminal_state}
use ach_orchestrator.World.{World, Result, ok, err, Error, Action, ◌>>=◌, IsErr, bind_rule}
use ach_orchestrator.World.View.{View, view}
use ach_orchestrator.Workflow.Types.{Status, completed}
use ach_orchestrator.Workflow.Spec.{Step}
use ach_orchestrator.Workflow.Trail.{At}

-- The state behind a list of steps.
abbrev pub end_of : PaymentState → List Step → PaymentState
end_of s [] = s
end_of s ((_, to) ∷ steps) = end_of to steps

-- From state `s` and steps `t`, the run made a first part of the steps that `spec` prescribes and
-- nothing else; and all of them, up to a terminal state, if the workflow returned nil.
pub record Outcome (s : PaymentState) (t spec : List Step) (out : Result Status) (v : View)
    : Type 0 where
  pub made : List Step
  pub left : List Step
  pub prescribed : spec ≡ made ++ left
  pub reached : At (end_of s made) (t ++ made) v
  pub whole : out ≡ ok completed → left ≡ []
  pub final : out ≡ ok completed → is_terminal_state (end_of s made) ≡ true

pub stopped :
    (s : PaymentState) (t spec : List Step) (out : Result Status) (v : View)
    → out ≢ ok completed
    → At s t v
    → Outcome s t spec out v
stopped s t spec out v bad at = record {
  made = [];
  left = spec;
  prescribed = refl;
  reached = rw append-nil at;
  whole = λ e. absurd (bad e);
  final = λ e. absurd (bad e);
}

pub finished :
    (s : PaymentState) (t : List Step) (out : Result Status) (v : View)
    → is_terminal_state s ≡ true
    → At s t v
    → Outcome s t [] out v
finished s t out v terminal at = record {
  made = [];
  left = [];
  prescribed = refl;
  reached = rw append-nil at;
  whole = λ _. refl;
  final = λ _. terminal;
}

pub onwards :
    (s to : PaymentState) (t spec : List Step) (out : Result Status) (v : View)
    → Outcome to (t ++ (s, to) ∷ []) spec out v
    → Outcome s t ((s, to) ∷ spec) out v
onwards s to t spec out v o = record {
  made = (s, to) ∷ o.made;
  left = o.left;
  prescribed = ap (λ (l : List Step). (s, to) ∷ l) o.prescribed;
  reached = rw (sym (append_assoc t ((s, to) ∷ []) o.made)) o.reached;
  whole = o.whole;
  final = o.final;
}

-- A step of the table, and what follows it.
pub step_rule :
    (id : ℕ) (s to : PaymentState) (t spec : List Step) (m : Action (Unit {0}))
    (f : Unit {0} → Action Status) (w : World)
    → (At to (t ++ (s, to) ∷ []) (view id (m w).1) × (is_transition_allowed s to ≡ true))
      ⊎ (At s t (view id (m w).1) × IsErr (m w).0)
    → ((w' : World)
        → At to (t ++ (s, to) ∷ []) (view id w')
        → Outcome to (t ++ (s, to) ∷ []) spec (f tt w').0 (view id (f tt w').1))
    → Outcome s t ((s, to) ∷ spec) ((m >>= f) w).0 (view id ((m >>= f) w).1)
step_rule id s to t spec m f w step rest =
    bind_rule (λ out. Outcome s t ((s, to) ∷ spec) out.0 (view id out.1)) m f w
      (λ u e. good u e step) (λ e e'. bad e step)
  where
    good :
        (u : Unit {0})
        → (m w).0 ≡ ok u
        → (At to (t ++ (s, to) ∷ []) (view id (m w).1) × (is_transition_allowed s to ≡ true))
          ⊎ (At s t (view id (m w).1) × IsErr (m w).0)
        → Outcome s t ((s, to) ∷ spec) (f u (m w).1).0 (view id (f u (m w).1).1)
    good u e (inl (at, _)) =
        onwards s to t spec (f u (m w).1).0 (view id (f u (m w).1).1) (rest (m w).1 at)
    good u e (inr (at, bad)) = absurd (ground arith)

    bad :
        (e : Error)
        → (At to (t ++ (s, to) ∷ []) (view id (m w).1) × (is_transition_allowed s to ≡ true))
          ⊎ (At s t (view id (m w).1) × IsErr (m w).0)
        → Outcome s t ((s, to) ∷ spec) (err e) (view id (m w).1)
    bad e (inl (at, _)) =
        onwards s to t spec (err e) (view id (m w).1)
          (stopped to (t ++ (s, to) ∷ []) spec (err e) (view id (m w).1) (λ h. cc) at)
    bad e (inr (at, _)) = stopped s t ((s, to) ∷ spec) (err e) (view id (m w).1) (λ h. cc) at
