-- ===== src/System.antt =====
-- A payment from its creation over its workflow to the endpoints that show it.
pub mod Quiet
pub mod Settled
use mathlib.Core.Option
use Prim.Native.String.{String}
use mathlib.Core.List.{Perm}
use mathlib.Core.List.Perm
use mathlib.Core.Path.{subst}
use ach_orchestrator.Base.{
  refl, some_injective, leb, All, ◌∷◌, Bool, inr_injective, ℕ, Option, true, some, inl, inr, List,
  [], map, ◌≡◌, ◌⊎◌, sym, ◌∙◌, ap, arith,
}
use ach_orchestrator.Base.Text.{Text}
use ach_orchestrator.Base.Sorting.{IsSorted}
use ach_orchestrator.Domain.Payment.{Payment, Decimal, initiated}
use ach_orchestrator.Domain.Rules.{is_terminal_state}
use ach_orchestrator.World.{AuditEntry, World, ok}
use ach_orchestrator.World.View.{view}
use ach_orchestrator.Services.{Services}
use ach_orchestrator.Db.Repository.{not_later}
use ach_orchestrator.Activities.Persist.{state_of}
use ach_orchestrator.Workflow.Types.{Event, completed}
use ach_orchestrator.Workflow.Spec.{Step, life}
use ach_orchestrator.Workflow.Loop.{payment_workflow}
use ach_orchestrator.Workflow.Outcome.{end_of}
use ach_orchestrator.Workflow.Limits.{completed_settles}
use ach_orchestrator.Workflow.Invariant.{frozen, payment_workflow-freezes}
use ach_orchestrator.Workflow.Trail.{At, step_of, trail}
use ach_orchestrator.Api.Responses.{
  CreatePaymentRequest, PaymentStatusResponse, AuditEntryResponse, Response, error_body,
  payment_body, audit_body, parse_uuid,
}
use ach_orchestrator.Api.Handlers.{get_payment, get_audit}
use ach_orchestrator.Api.Create.{Inserted, new_row, workflow_input}
use ach_orchestrator.Api.Reads.{
  Answers, RowAnswered, AuditAnswered, row_shown, entry_shown, get_payment_lem, get_audit_lem,
}

-- `GET /payments/{id}` shows the state, with the other columns as they were written.
abbrev pub Shown : (ℕ → Text) → Payment → List Event → Response × World → Type 0
Shown uuid_string p events out =
    Answers 500 (error_body "database error") out
    ⊎ ((r : PaymentStatusResponse) × (r.payment_id ≡ uuid_string p.id)
        × (r.state ≡ end_of initiated (life events))
        × (r.representment_count ≡ p.representment_count)
        × (r.trace_number ≡ p.trace_number)
        × (r.created_at ≡ p.created_at)
        × Answers 200 (payment_body r) out)

-- The step that an entry of the answer shows, and the order of the answer.
abbrev pub shown_step : AuditEntryResponse → Step
shown_step r = (r.from_state, r.to_state)

abbrev pub shown_before : AuditEntryResponse → AuditEntryResponse → Bool
shown_before r s = leb r.created_at s.created_at

-- `GET /payments/{id}/audit` shows the steps of the life, in the order of their times.
abbrev pub Audited : List Event → Response × World → Type 0
Audited events out =
    ((message : String) × Answers 500 (error_body message) out)
    ⊎ ((rs : List AuditEntryResponse) × Perm (map shown_step rs) (life events)
        × IsSorted shown_before rs
        × Answers 200 (audit_body rs) out)

module _ (uuid_string : ℕ → Text) (entry_id : AuditEntry → ℕ) (events : List Event) where
  shown :
      (id : ℕ) (p : Payment) (w : World) (out : Response × World)
      → state_of (view id w) ≡ some (end_of initiated (life events))
      → Option.map frozen (view id w).row ≡ some (frozen p)
      → RowAnswered uuid_string id w out
      → Shown uuid_string p events out
  shown id p w out state columns (inl (_, failed)) = inl failed
  shown id p w out state columns (inr (inl (missing, _))) = absurd (ground arith)
  shown id p w out state columns (inr (inr (q, row, answer))) =
      let same : frozen q ≡ frozen p =
        some_injective (sym (ap (Option.map frozen) row) ∙ columns) in
      inr (
        row_shown uuid_string q,
        ap (λ (x : Payment). uuid_string x.id) same,
        some_injective (sym (ap (Option.map (λ (x : Payment). x.state)) row) ∙ state),
        ap (λ (x : Payment). x.representment_count) same,
        ap (λ (x : Payment). x.trace_number) same,
        ap (λ (x : Payment). x.created_at) same,
        answer,
      )

  shown_steps :
      (es : List AuditEntry)
      → map shown_step (map (entry_shown uuid_string entry_id) es) ≡ map step_of es
  shown_steps [] = refl
  shown_steps (e ∷ es) = ap (λ l. step_of e ∷ l) (shown_steps es)

  shown-All :
      (e : AuditEntry) (es : List AuditEntry)
      → All (λ f. not_later e f ≡ true) es
      → All
          (λ r. shown_before (entry_shown uuid_string entry_id e) r ≡ true)
          (map (entry_shown uuid_string entry_id) es)
  shown-All e [] h = tt
  shown-All e (f ∷ es) (a, h) = (a, shown-All e es h)

  shown-IsSorted :
      (es : List AuditEntry)
      → IsSorted not_later es
      → IsSorted shown_before (map (entry_shown uuid_string entry_id) es)
  shown-IsSorted [] h = tt
  shown-IsSorted (e ∷ es) (a, h) = (shown-All e es a, shown-IsSorted es h)

  audited :
      (id : ℕ) (w : World) (out : Response × World)
      → state_of (view id w) ≡ some (end_of initiated (life events))
      → trail (view id w) ≡ life events
      → AuditAnswered uuid_string entry_id id w out
      → Audited events out
  audited id w out state steps (inl (_, failed)) = inl ("database error", failed)
  audited id w out state steps (inr (inl (_, _, _, _, failed))) =
      inl ("failed to fetch audit log", failed)
  audited id w out state steps (inr (inr (inl (missing, _)))) = absurd (ground arith)
  audited id w out state steps (inr (inr (inr (_, es, perm, sorted, answer)))) = inr (
    map (entry_shown uuid_string entry_id) es,
    subst (λ l. Perm l (life events)) (sym (shown_steps es))
        (subst (Perm (map step_of es)) steps (Perm.map step_of perm)),
    shown-IsSorted es sorted,
    answer,
  )

module _ (env : Services) (uuid_parse : Text → Option ℕ) (uuid_string : ℕ → Text)
    (entry_id : AuditEntry → ℕ) where
  row_of :
      (raw : Text) (id : ℕ) (w : World)
      → parse_uuid uuid_parse raw ≡ inr id
      → RowAnswered uuid_string id w (get_payment uuid_parse uuid_string raw w)
  row_of raw id w named = elim (get_payment_lem uuid_parse uuid_string raw w).1 [
    | inl (message, bad, _) ↦ absurd (ground arith)
    | inr (j, e, h) ↦
        subst (λ i. RowAnswered uuid_string i w (get_payment uuid_parse uuid_string raw w))
          (inr_injective (sym e ∙ named)) h
  ]

  -- A payment whose row `createPayment` has just inserted, with no audit entry before, and whose
  -- workflow then returns nil: from then on `GET /payments/{id}` answers 500, or 200 with the
  -- terminal state to which the events lead and the creation time, but always with a representment
  -- count of 0 and an empty trace number, as the creation wrote them, however often the payment was
  -- presented; and `GET /payments/{id}/audit` answers 500, or 200 with exactly the steps of that
  -- life, in the order of their times.
  pub created_payment-Shown :
      (fresh : ℕ) (req : CreatePaymentRequest) (amount : Decimal) (events : List Event) (raw : Text)
      (w w₁ : World)
      → Inserted (new_row env fresh amount w.clock) w w₁
      → (view fresh w).history ≡ []
      → (payment_workflow env (workflow_input fresh req) events w₁).0 ≡ ok completed
      → parse_uuid uuid_parse raw ≡ inr fresh
      → let w₂ = (payment_workflow env (workflow_input fresh req) events w₁).1 in
        (is_terminal_state (end_of initiated (life events)) ≡ true)
        × Shown uuid_string
            (new_row env fresh amount w.clock)
            events
            (get_payment uuid_parse uuid_string raw w₂)
        × Audited events (get_audit uuid_parse uuid_string entry_id raw w₂)
  created_payment-Shown fresh req amount events raw w w₁ (_, row, same, _) empty done named =
      let input = workflow_input fresh req in
      let p = new_row env fresh amount w.clock in
      let w₂ = (payment_workflow env input events w₁).1 in
      let at : At initiated [] (view fresh w₁) =
        (ap (Option.map (λ (q : Payment). q.state)) row, ap (map step_of) (same ∙ empty)) in
      let (state, terminal, steps) = completed_settles env input events [] w₁ at done in
      let columns = (payment_workflow-freezes env input events w₁).0 ∙ ap (Option.map frozen) row in
      (
        terminal,
        shown uuid_string entry_id events fresh p w₂ (get_payment uuid_parse uuid_string raw w₂)
            state columns (row_of raw fresh w₂ named),
        audited uuid_string entry_id events fresh w₂
            (get_audit uuid_parse uuid_string entry_id raw w₂) state steps
            (get_audit_lem uuid_parse uuid_string entry_id raw fresh w₂ named),
      )
