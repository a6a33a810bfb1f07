-- ===== src/Activities/Persist.antt =====
-- `PersistStateTransition` under at-least-once execution.
use mathlib.Core.Option
use Prim.Native.String.{String}
use ach_orchestrator.Base.{
  ℕ, true, false, Option, none, some, inl, inr, ◌≡◌, ◌⊎◌, refl, sym, ◌∙◌, arith, Bool-cases,
}
use ach_orchestrator.Base.Text.{Text}
use ach_orchestrator.Domain.Payment.{PaymentState, initiated, Payment, state_eq, state_eq_sound}
use ach_orchestrator.Domain.Rules.{is_transition_allowed}
use ach_orchestrator.World.{World, Result, ok, err, IsErr, Action, io, on_error, pure, ◌>>=◌, ◌>>◌}
use ach_orchestrator.World.View.{View, view, view_store, find_row, find_row-id}
use ach_orchestrator.Services.{Services, Attempts, gave_up, last, again}
use ach_orchestrator.Db.Repository.{get_payment_by_id, update_payment_state}
use ach_orchestrator.Db.Rows.{moved_view}
use ach_orchestrator.Db.Update.{updated_view, update_payment_state-cases}
use ach_orchestrator.Activities.{
  PersistStateTransitionInput, persist_payment, persist_state_transition,
}

-- The state in the row.
abbrev pub state_of : View → Option PaymentState
state_of v = Option.map (λ (p : Payment). p.state) v.row

-- The payment made the step to `to` once, and it was allowed.
abbrev pub Moves : PaymentState → Text → View → View → Type 0
Moves to reason v v' =
    (p : Payment) × (now : ℕ) × (v.row ≡ some p)
    × (is_transition_allowed p.state to ≡ true)
    × (v' ≡ moved_view p to reason now v)

-- What a call comes to: nothing changed, or the one step; and if it succeeded, the row is in `to`.
abbrev pub Persists : PaymentState → Text → View → Result (Unit {0}) → View → Type 0
Persists to reason v r v' = ((v' ≡ v) ⊎ Moves to reason v v') × (IsErr r ⊎ (state_of v' ≡ some to))

row_view : (id : ℕ) (w : World) → (view id w).row ≡ find_row id w.payments
unfolding view_store
row_view id w = refl

-- The step that a committed update of the row makes.
moved_once :
    (p : Payment) (to : PaymentState) (reason : Text) (now id : ℕ) (w w' : World)
    → p.id ≡ id
    → (view id w).row ≡ some p
    → is_transition_allowed p.state to ≡ true
    → view id w' ≡ updated_view p to reason now id w
    → Moves to reason (view id w) (view id w') × (state_of (view id w') ≡ some to)
moved_once p to reason now id w w' same row allowed e =
    ((p, now, row, allowed, ground arith), ground arith)

-- The last lines of the activity keep what the update came to.
conclude_Persists :
    (to : PaymentState) (reason : Text) (id : ℕ) (v : View) (r : Result Payment) (w' w : World)
    → ((view id w' ≡ v) ⊎ Moves to reason v (view id w'))
      × (IsErr r ⊎ (state_of (view id w') ≡ some to))
    → let (r', w'') =
        (on_error "PersistStateTransition: update payment" (λ _. (r, w')) >> pure tt) w in
      Persists to reason v r' (view id w'')
conclude_Persists to reason id v (ok q) w' w (h, inr e) = (h, inr e)
conclude_Persists to reason id v (ok q) w' w (h, inl e) = absurd e
conclude_Persists to reason id v (err x) w' w (h, _) = (h, inl tt)

-- A read before it keeps it too.
bind_Persists :
    {B : Type 0} (to : PaymentState) (reason : Text) (id : ℕ) (v : View) (r : Result B)
    (w₁ w : World) (f : B → Action (Unit {0}))
    → view id w₁ ≡ v
    → ((b : B) → r ≡ ok b → Persists to reason v (f b w₁).0 (view id (f b w₁).1))
    → let (r', w') = ((λ (_ : World). (r, w₁)) >>= f) w in Persists to reason v r' (view id w')
bind_Persists to reason id v (ok b) w₁ w f same h = h b refl
bind_Persists to reason id v (err e) w₁ w f same h = (inl same, inl tt)

-- The read gives the row, or fails, and changes nothing.
get_payment_view :
    (context : String) (id : ℕ) (w : World)
    → let (r, w') = on_error context (get_payment_by_id id) w in
      (view id w' ≡ view id w) × (IsErr r ⊎ (r ≡ ok (view id w).row))
unfolding get_payment_by_id io view_store
get_payment_view context id w = ground arith

-- No state has a step to itself, so a second call with the same target does nothing.
pub no_self_step : (s : PaymentState) → is_transition_allowed s s ≡ false
unfolding is_transition_allowed
no_self_step initiated = refl
no_self_step _ = refl

again_same :
    (to : PaymentState) (reason : Text) (v v' : View)
    → state_of v ≡ some to
    → (v' ≡ v) ⊎ Moves to reason v v'
    → v' ≡ v
again_same to reason v v' e (inl same) = same
again_same to reason v v' e (inr (p, now, row, allowed, _)) =
    absurd (ground (arith, no_self_step to))

Moves-state :
    (to : PaymentState) (reason : Text) (v v' : View) → Moves to reason v v' → state_of v' ≡ some to
Moves-state to reason v v' (p, now, row, allowed, e) = ground arith

compose_Persists :
    (to : PaymentState) (reason : Text) (v₁ v₂ v₃ : View) (r r' : Result (Unit {0}))
    → Persists to reason v₁ r v₂
    → Persists to reason v₂ r' v₃
    → Persists to reason v₁ r' v₃
compose_Persists to reason v₁ v₂ v₃ r r' (inl e, _) (h, t) = rw (← e) (h, t)
compose_Persists to reason v₁ v₂ v₃ r r' (inr m, _) (h, t) =
    let e = again_same to reason v₂ v₃ (Moves-state to reason v₁ v₂ m) h in (rw e (inr m), t)

module _ (env : Services) where
  update-Persists :
      (p : Payment) (to : PaymentState) (reason : Text) (id : ℕ) (w : World)
      → p.id ≡ id
      → (view id w).row ≡ some p
      → let (r, w') = update_payment_state env p to reason w in
        ((view id w' ≡ view id w) ⊎ Moves to reason (view id w) (view id w'))
        × (IsErr r ⊎ (state_of (view id w') ≡ some to))
  update-Persists p to reason id w same row =
      elim (update_payment_state-cases env p to reason id w) [
        | inl (no_edge, e) ↦ rw e (inl refl, inl tt)
        | inr (allowed, inl (bad, kept), _) ↦ (inl kept, inl bad)
        | inr (allowed, inr new, _) ↦
            let m =
              moved_once p to reason (env.timestamptz w.clock) id w
                (update_payment_state env p to reason w).1 same row allowed new in
            (inr m.0, inr m.1)
      ]

  persist_payment-Persists :
      (input : PersistStateTransitionInput) (o : Option Payment) (w : World)
      → (view input.payment_id w).row ≡ o
      → let (r, w') = persist_payment env input o w in
        Persists input.to_state input.reason (view input.payment_id w) r (view input.payment_id w')
  unfolding persist_payment
  persist_payment-Persists input none w e = (inl refl, inl tt)
  persist_payment-Persists input (some p) w e =
      elim (Bool-cases (state_eq p.state input.to_state)) [
        | inl there ↦
            rw there (inl refl, inr (ground (arith, state_eq_sound p.state input.to_state)))
        | inr away ↦ rw away (
            conclude_Persists input.to_state input.reason input.payment_id (view input.payment_id w)
              (update_payment_state env p input.to_state input.reason w).0
              (update_payment_state env p input.to_state input.reason w).1 w
              (update-Persists p input.to_state input.reason input.payment_id w
                (find_row-id input.payment_id w.payments (sym (row_view input.payment_id w) ∙ e))
                e))
      ]

  -- One run of `PersistStateTransition`: it changes nothing that belongs to the payment, or makes
  -- the one step that the table allows; if it returns nil, the row is in the target state.
  pub persist_state_transition-Persists :
      (input : PersistStateTransitionInput) (w : World)
      → let (r, w') = persist_state_transition env input w in
        Persists input.to_state input.reason (view input.payment_id w) r (view input.payment_id w')
  unfolding persist_state_transition
  persist_state_transition-Persists input w =
      let context : String = "PersistStateTransition: get payment" in
      let (r, w₁) = on_error context (get_payment_by_id input.payment_id) w in
      let (same, got) = get_payment_view context input.payment_id w in
      bind_Persists input.to_state input.reason input.payment_id (view input.payment_id w) r w₁ w
        (persist_payment env input) same
        (λ o e. rw (← same) (persist_payment-Persists input o w₁ (ground arith)))

  -- Any number of runs of `PersistStateTransition` for one target, each at a world that agrees with
  -- the one before on the payment, as Temporal may make them for one call: together they change
  -- nothing that belongs to the payment, or make the one step that the transition table allows, with
  -- one audit entry, and no second one. If the call succeeds, the row is in the target state.
  pub persist-once :
      (input : PersistStateTransitionInput) (out : Result (Unit {0}) × World) {n : ℕ} (w : World)
      → Attempts input.payment_id (persist_state_transition env input) out n w
      → Persists input.to_state input.reason
          (view input.payment_id w)
          out.0
          (view input.payment_id out.1)
  persist-once input out w (gave_up bad same) = (inl same, inl bad)
  persist-once input out w (last w₁ same r e) =
      let h = persist_state_transition-Persists input w₁ in rw (← same, r, e) h
  persist-once input out w (again w₁ same rest) =
      let w₂ = (persist_state_transition env input w₁).1 in
      rw (← same) (
        compose_Persists input.to_state input.reason (view input.payment_id w₁)
          (view input.payment_id w₂) (view input.payment_id out.1)
          (persist_state_transition env input w₁).0 out.0
          (persist_state_transition-Persists input w₁) (persist-once input out w₂ rest))
