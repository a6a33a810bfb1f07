-- ===== src/Workflow/Rounds.antt =====
-- The rounds of the loop, and the whole workflow.
use ach_orchestrator.Base.{
  ℕ, ◌+◌, ◌/◌, Bool, true, false, inl, inr, List, [], ◌∷◌, ◌++◌, ◌≡◌, ◌≢◌, ◌⊎◌, refl, arith,
  if◌then◌else◌,
}
use ach_orchestrator.Base.Text.{Text}
use ach_orchestrator.Domain.Payment.{PaymentState, pending, submitted, settled, returned}
use ach_orchestrator.Domain.Rules.{is_transition_allowed, is_terminal_state}
use ach_orchestrator.Domain.Rcode.{route_r_code}
use ach_orchestrator.World.{World, Action, pure, ◌>>=◌, ◌>>◌, IsErr, bind_rule, world_rule}
use ach_orchestrator.World.View.{view}
use ach_orchestrator.Services.{Services}
use ach_orchestrator.Workflow.Types.{second, PaymentWorkflowInput, Event, timer, signal, Status}
use ach_orchestrator.Workflow.Spec.{Step, life_submitted}
use ach_orchestrator.Workflow.Trail.{
  At, Kept, Kept-At, persist_At, check-Kept, store-Kept, submit-Kept,
}
use ach_orchestrator.Workflow.Outcome.{Outcome}
use ach_orchestrator.Workflow.Refinement.{GoesOn, persist_rule, terminal_rule, respond_rule}
use ach_orchestrator.Workflow.Helpers.{
  trace_text, generate_trace_number, persist_transition, check_idempotency, store_trace_number,
  submit,
}
use ach_orchestrator.Workflow.Loop.{
  finish, respond, settled_reason, returned_reason, submitted_reason, first_submission, send,
  on_event,
}

-- The payment was sent in this round, or it is still in PENDING.
abbrev pub Sent : ℕ → List Step → World → Type 0
Sent id t w = At pending t (view id w) ⊎ At submitted (t ++ (pending, submitted) ∷ []) (view id w)

-- Calls that leave the row and the audit log alone keep this.
Sent-Kept :
    (id : ℕ) (t : List Step) (w w' : World)
    → Kept (view id w) (view id w')
    → Sent id t w
    → Sent id t w'
Sent-Kept id t w w' kept (inl at) = inl (Kept-At (view id w) (view id w') kept at)
Sent-Kept id t w w' kept (inr at) = inr (Kept-At (view id w) (view id w') kept at)

module _ (env : Services) (input : PaymentWorkflowInput) where
  -- The second half of a first submission.
  submit_rule :
      (trace : Text) (t : List Step) (w : World)
      → Sent input.payment_id t w
      → Sent input.payment_id t ((submit env input trace >>= λ _. pure tt) w).1
  submit_rule trace t w sent =
      let kept =
        Sent-Kept input.payment_id t w (submit env input trace w).1 (submit-Kept env input trace w)
          sent in
      world_rule (Sent input.payment_id t) (submit env input trace) (λ _. pure tt) w kept
        (λ _ _. kept)

  persist_Sent :
      (reason : Text) (t : List Step) (w : World)
      → At pending t (view input.payment_id w)
      → Sent input.payment_id t
          (persist_transition env input.payment_id pending submitted reason w).1
  persist_Sent reason t w at =
      elim (persist_At env input.payment_id pending pending submitted reason t w (λ e. cc) at) [
        | inl h ↦ inr h.0
        | inr h ↦ inl h.0
      ]

  first_rule :
      (trace : Text) (n : ℕ) (t : List Step) (w : World)
      → At pending t (view input.payment_id w)
      → Sent input.payment_id t (first_submission env input trace n w).1
  unfolding first_submission
  first_rule trace n t w at =
      let id = input.payment_id in
      let w₁ = (store_trace_number env trace w).1 in
      let at₁ = Kept-At (view id w) (view id w₁) (store-Kept env input trace w) at in
      let m = persist_transition env id pending submitted (submitted_reason trace n) in
      let sent = persist_Sent (submitted_reason trace n) t w₁ at₁ in
      world_rule (Sent id t) (store_trace_number env trace)
        (λ _. m >> (submit env input trace >>= λ _. pure tt)) w (inl at₁)
        (λ _ _.
          world_rule (Sent id t) m (λ _. submit env input trace >>= λ _. pure tt) w₁ sent
            (λ _ _. submit_rule trace t (m w₁).1 sent))

  -- A round up to the selector.
  pub send_rule :
      (n : ℕ) (t : List Step) (w : World)
      → At pending t (view input.payment_id w)
      → Sent input.payment_id t (send env input n w).1
  unfolding send generate_trace_number
  send_rule n t w at =
      let id = input.payment_id in
      let trace = trace_text env n id (w.clock / second) in
      let w₁ = (check_idempotency env trace w).1 in
      let at₁ = Kept-At (view id w) (view id w₁) (check-Kept env input trace w) at in
      world_rule (Sent id t) (check_idempotency env trace)
        (λ o.
          (if o.already_submitted then pure tt else first_submission env input trace n)
          >> pure trace)
        w (inl at₁) (λ o _. first_or_not o.already_submitted trace n t w₁ at₁)
    where
      first_or_not :
          (b : Bool) (trace : Text) (n : ℕ) (t : List Step) (w : World)
          → At pending t (view input.payment_id w)
          → Sent input.payment_id t
              (((if b then pure tt else first_submission env input trace n) >> pure trace) w).1
      first_or_not true trace n t w at = inl at
      first_or_not false trace n t w at =
          let sent = first_rule trace n t w at in
          world_rule (Sent input.payment_id t) (first_submission env input trace n)
            (λ _. pure trace) w sent (λ _ _. sent)

  -- A payment that is still in PENDING can neither settle nor return: the call fails.
  pending_rule :
      (to : PaymentState) (reason : Text) (t : List Step) (next : Action Status) (w : World)
      → pending ≢ to
      → is_transition_allowed pending to ≡ false
      → At pending t (view input.payment_id w)
      → let (r, w') = (persist_transition env input.payment_id submitted to reason >> next) w in
        At pending t (view input.payment_id w') × IsErr r
  pending_rule to reason t next w ne refused at =
      let m = persist_transition env input.payment_id submitted to reason in
      let h : At pending t (view input.payment_id (m w).1) × IsErr (m w).0 =
        elim (persist_At env input.payment_id pending submitted to reason t w ne at) [
          | inl g ↦ absurd (cc (g.1, refused))
          | inr g ↦ g
        ] in
      bind_rule (λ out. At pending t (view input.payment_id out.1) × IsErr out.0) m (λ _. next) w
        (λ u e. absurd (ground (arith, h.1, e))) (λ e e'. (h.0, tt))

  pub pending_event :
      (n : ℕ) (trace : Text) (e : Event) (t : List Step) (next : Action Status) (w : World)
      → At pending t (view input.payment_id w)
      → let (r, w') = on_event env input n trace e next w in
        At pending t (view input.payment_id w') × IsErr r
  unfolding on_event is_transition_allowed
  pending_event n trace timer t next w at =
      pending_rule settled settled_reason t (finish input.payment_id settled [] trace) w (λ e. cc)
        refl at
  pending_event n trace (signal s) t next w at =
      pending_rule returned (returned_reason s.r_code (route_r_code s.r_code).1) t
        (respond env input (route_r_code s.r_code).0 n trace s.r_code (route_r_code s.r_code).1
          next)
        w (λ e. cc) refl at

  -- A payment that was sent settles or is returned.
  pub event_rule :
      (n : ℕ) (trace : Text) (e : Event) (es : List Event) (t : List Step) (next : Action Status)
      (w : World)
      → At submitted t (view input.payment_id w)
      → ((t' : List Step)
          → GoesOn env input t' ((pending, submitted) ∷ life_submitted es (n + 1)) next)
      → let (r, w') = on_event env input n trace e next w in
        Outcome submitted t (life_submitted (e ∷ es) n) r (view input.payment_id w')
  unfolding on_event life_submitted is_terminal_state
  event_rule n trace timer es t next w at rest =
      terminal_rule env input submitted submitted settled settled_reason [] trace t w (λ e. cc) refl
        at
  event_rule n trace (signal s) es t next w at rest =
      persist_rule env input submitted submitted returned
        (returned_reason s.r_code (route_r_code s.r_code).1) t _
        (respond env input (route_r_code s.r_code).0 n trace s.r_code (route_r_code s.r_code).1
          next)
        w (λ e. cc) at
        (λ w' at'.
          respond_rule env input (route_r_code s.r_code).0 n trace s.r_code
            (route_r_code s.r_code).1 next (t ++ (submitted, returned) ∷ [])
            ((pending, submitted) ∷ life_submitted es (n + 1)) w' at' (rest _))
