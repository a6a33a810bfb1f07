-- ===== src/Db/Update.antt =====
-- What `UpdatePaymentState` does, on every branch and whatever the services answer.
use ach_orchestrator.Base.{
  ℕ, Bool, true, false, none, some, [], ◌∷◌, ◌++◌, inl, inr, ◌≡◌, ◌≢◌, ◌⊎◌, refl, ◌∙◌, ap, arith,
  ◌==◌, ==_iff, if◌then◌else◌, ◌||◌, Option-cases,
}
use ach_orchestrator.Base.Text.{Text}
use ach_orchestrator.Domain.Payment.{
  PaymentState, initiated, pending, submitted, settled, returned, failed_non_retryable,
  failed_retryable_exhausted, compliance_escalation, other, Payment, state_eq,
}
use ach_orchestrator.Domain.Rules.{is_transition_allowed}
use ach_orchestrator.World.{
  AuditEntry, World, Result, ok, err, IsErr, illegal_transition, on_error, pure, ◌>>◌,
}
use ach_orchestrator.World.View.{View, view}
use ach_orchestrator.Services.{Services, Atomic}
use ach_orchestrator.Db.Repository.{moved, update_tx, update_payment_state}
use ach_orchestrator.Db.Rows.{moved_view, update_tx-view}

-- The three states in which a payment has failed.
abbrev pub has_failed : PaymentState → Bool
has_failed s =
    state_eq s failed_non_retryable
    || state_eq s failed_retryable_exhausted
    || state_eq s compliance_escalation

-- A payment after a step to a state at a time, and the entry that records the step, written out.
abbrev pub stepped : PaymentState → ℕ → Payment → Payment
stepped to now p = record p {
  state = to;
  updated_at = now;
  settled_at = (if state_eq to settled then some now else p.settled_at);
  failed_at = (if has_failed to then some now else p.failed_at);
}

abbrev pub step_entry : Payment → PaymentState → Text → ℕ → AuditEntry
step_entry p to reason now = record {
  payment_id = p.id;
  from_state = p.state;
  to_state = to;
  reason = reason;
  created_at = now;
}

pub moved-stepped : (to : PaymentState) (now : ℕ) (p : Payment) → moved to now p ≡ stepped to now p
unfolding state_eq
moved-stepped initiated now p = refl
moved-stepped pending now p = refl
moved-stepped submitted now p = refl
moved-stepped settled now p = refl
moved-stepped returned now p = refl
moved-stepped failed_non_retryable now p = refl
moved-stepped failed_retryable_exhausted now p = refl
moved-stepped compliance_escalation now p = refl
moved-stepped (other s) now p = refl

-- The step as it is committed for the payment `id`: the row, whatever it was, and one entry that
-- tells the state in `*p` as the one before.
abbrev pub Committed : Payment → PaymentState → Text → ℕ → View → View → Type 0
Committed p to reason now v v' =
    (q : Payment) × (v.row ≡ some q)
    × (v' ≡ record v {
      row = some (stepped to now q);
      history = v.history ++ step_entry p to reason now ∷ [];
    })

-- What the payment `id` looks like after an update of `p` that is committed.
abbrev pub updated_view : Payment → PaymentState → Text → ℕ → ℕ → World → View
updated_view p to reason now id w =
    if p.id == id then moved_view p to reason now (view id w) else view id w

-- The transaction as the payment `id` sees it.
tx_view :
    (p : Payment) (to : PaymentState) (reason : Text) (now id : ℕ) (w : World)
    (out : Result (Unit {0}) × World)
    → Atomic id (update_tx p to reason now) w out
    → (IsErr out.0 × (view id out.1 ≡ view id w))
      ⊎ (view id out.1 ≡ updated_view p to reason now id w)
tx_view p to reason now id w out (inl h) = inl h
tx_view p to reason now id w out (inr (w₁, same, done, e)) =
    inr (ground (arith, update_tx-view p to reason now id w₁))

-- A committed update, written out.
updated-Committed :
    (p : Payment) (to : PaymentState) (reason : Text) (now : ℕ) (w w' : World)
    → (view p.id w).row ≢ none
    → view p.id w' ≡ updated_view p to reason now p.id w
    → Committed p to reason now (view p.id w) (view p.id w')
updated-Committed p to reason now w w' there e = elim (Option-cases (view p.id w).row) [
  | inl none_there ↦ absurd (there none_there)
  | inr (q, row) ↦ (q, row, rw (← moved-stepped to now q) (ground (arith, ==_iff p.id p.id)))
]

-- The transaction as its own payment sees it.
tx-Committed :
    (p : Payment) (to : PaymentState) (reason : Text) (now : ℕ) (w : World)
    (out : Result (Unit {0}) × World)
    → Atomic p.id (update_tx p to reason now) w out
    → (IsErr out.0 × (view p.id out.1 ≡ view p.id w))
      ⊎ Committed p to reason now (view p.id w) (view p.id out.1)
tx-Committed p to reason now w out (inl h) = inl h
tx-Committed p to reason now w out (inr (w₁, same, done, e)) =
    let (there, shows) = update_tx-view p to reason now p.id w₁ done in
    inr (
      updated-Committed p to reason now w out.1 (ground arith)
        (e ∙ shows ∙ ap (λ v. if p.id == p.id then moved_view p to reason now v else v) same))

tx_row :
    (p : Payment) (to : PaymentState) (reason : Text) (now : ℕ) (w : World)
    (out : Result (Unit {0}) × World)
    → Atomic p.id (update_tx p to reason now) w out
    → IsErr out.0 ⊎ ((view p.id w).row ≢ none)
tx_row p to reason now w out (inl h) = inl h.0
tx_row p to reason now w out (inr (w₁, same, done, e')) =
    inr (ground (arith, update_tx-view p to reason now p.id w₁))

module _ (env : Services) where
  open env use {begin_tx_func, atomic, timestamptz}

  -- The branches, by the code's own words for what is written.
  pub update_payment_state-cases :
      (p : Payment) (to : PaymentState) (reason : Text) (id : ℕ) (w : World)
      → let (r, w') = update_payment_state env p to reason w in
        ((is_transition_allowed p.state to ≡ false)
          × (update_payment_state env p to reason w
              ≡ (err (illegal_transition p.state to p.id), w)))
        ⊎ ((is_transition_allowed p.state to ≡ true)
            × ((IsErr r × (view id w' ≡ view id w))
                ⊎ (view id w' ≡ updated_view p to reason (timestamptz w.clock) id w))
            × (IsErr r ⊎ ((r ≡ ok (moved to w.clock p)) × ((view p.id w).row ≢ none))))
  unfolding update_payment_state
  update_payment_state-cases p to reason id w =
      let now = timestamptz w.clock in
      let tx = begin_tx_func (update_tx p to reason now) w in
      ground (
        arith,
        tx_view p to reason now id w tx (atomic id (update_tx p to reason now) w),
        tx_row p to reason now w tx (atomic p.id (update_tx p to reason now) w),
      )

  own_branch :
      (p : Payment) (to : PaymentState) (reason : Text) (w : World)
      → is_transition_allowed p.state to ≡ true
      → let (r, w') = update_payment_state env p to reason w in
        (IsErr r × (view p.id w' ≡ view p.id w))
        ⊎ (Committed p to reason (timestamptz w.clock) (view p.id w) (view p.id w')
            × (IsErr r ⊎ (r ≡ ok (stepped to w.clock p))))
  unfolding update_payment_state
  own_branch p to reason w allowed =
      let now = timestamptz w.clock in
      let act = update_tx p to reason now in
      rw (allowed, ← moved-stepped to w.clock p)
        (by_result (begin_tx_func act w)
          (tx-Committed p to reason now w (begin_tx_func act w) (atomic p.id act w)))
    where
      by_result :
          (out : Result (Unit {0}) × World)
          → (IsErr out.0 × (view p.id out.1 ≡ view p.id w))
            ⊎ Committed p to reason (timestamptz w.clock) (view p.id w) (view p.id out.1)
          → let (r, w') =
              (on_error "db: UpdatePaymentState tx" (λ _. out) >> pure (moved to w.clock p)) w in
            (IsErr r × (view p.id w' ≡ view p.id w))
            ⊎ (Committed p to reason (timestamptz w.clock) (view p.id w) (view p.id w')
                × (IsErr r ⊎ (r ≡ ok (moved to w.clock p))))
      by_result (ok u, w') (inl (bad, _)) = absurd bad
      by_result (ok u, w') (inr h) = inr (h, inr refl)
      by_result (err e, w') (inl (_, same)) = inl (tt, same)
      by_result (err e, w') (inr h) = inr (h, inl tt)

  -- An update to a state that `IsTransitionAllowed` refuses is an error and changes nothing. One to
  -- an allowed state never changes another payment, and is all or nothing for its own: an error and
  -- no change; or there was a row, which gets the new state, the time, `settled_at` if the state is
  -- SETTLED and `failed_at` if it is a failure, and keeps its other columns, together with one audit
  -- entry behind the others, from the state in `*p` to the new one, with the reason and the time.
  -- The row is moved whatever state it is in by then, since only `*p` is checked. A commit whose
  -- answer is lost is an error too; otherwise `*p` has the new state and times.
  pub update_payment_state_lem :
      (p : Payment) (to : PaymentState) (reason : Text) (w : World)
      → let (r, w') = update_payment_state env p to reason w in
        ((is_transition_allowed p.state to ≡ false)
          × (update_payment_state env p to reason w
              ≡ (err (illegal_transition p.state to p.id), w)))
        ⊎ ((is_transition_allowed p.state to ≡ true)
            × ((id : ℕ) → id ≢ p.id → view id w' ≡ view id w)
            × ((IsErr r × (view p.id w' ≡ view p.id w))
                ⊎ (Committed p to reason (timestamptz w.clock) (view p.id w) (view p.id w')
                    × (IsErr r ⊎ (r ≡ ok (stepped to w.clock p))))))
  update_payment_state_lem p to reason w = elim (update_payment_state-cases p to reason p.id w) [
    | inl refused ↦ inl refused
    | inr (allowed, _, answer) ↦ inr (
      allowed,
      λ id apart. elim (update_payment_state-cases p to reason id w) [
        | inl (no_edge, _) ↦ absurd (ground arith)
        | inr (_, inl (_, same), _) ↦ same
        | inr (_, inr new, _) ↦ ground (arith, ==_iff p.id id)
      ],
      own_branch p to reason w allowed,
    )
  ]
