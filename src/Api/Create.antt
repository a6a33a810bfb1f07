-- ===== src/Api/Create.antt =====
-- The endpoint for new payments, on every branch.
use Prim.Native.String.{String}
use ach_orchestrator.Base.{
  ℕ, true, Option, none, some, inl, inr, List, [], ◌∷◌, ◌++◌, ◌≡◌, ◌≢◌, ◌⊎◌, refl, arith, ◌==◌,
  ==_iff, if◌then◌else◌,
}
use ach_orchestrator.Base.Text.{Text}
use ach_orchestrator.Domain.Payment.{Decimal, Payment, initiated}
use ach_orchestrator.World.{World, Result, ok, err, Action, IsErr, io}
use ach_orchestrator.World.View.{view, view_store, find_row}
use ach_orchestrator.Services.{Services}
use ach_orchestrator.Db.Repository
use ach_orchestrator.Db.Repository.{rows_affected}
use ach_orchestrator.Workflow.Types.{PaymentWorkflowInput}
use ach_orchestrator.Api.Responses.{CreatePaymentRequest, Response, error_body, created, written_or}
use ach_orchestrator.Api.Handlers.{create_problem, new_payment, create_payment, started, on_create}

-- A row that is not there is found once it is appended, and no other one.
find_row-append :
    (id : ℕ) (ps : List Payment) (q : Payment)
    → find_row id (ps ++ q ∷ [])
      ≡ (if rows_affected id ps == 0 then (if q.id == id then some q else none) else find_row id ps)
unfolding find_row rows_affected
find_row-append id [] q = ground arith
find_row-append id (p ∷ ps) q = ground (arith, find_row-append id ps q)

-- The row of a new payment, written out: in INITIATED, with what the column keeps of the amount and
-- of the time.
abbrev pub new_row : Services → ℕ → Decimal → ℕ → Payment
new_row env fresh amount now = record {
  id = fresh;
  portfolio_id = 0;
  amount = env.numeric amount;
  state = initiated;
  return_code = [];
  representment_count = 0;
  trace_number = [];
  created_at = env.timestamptz now;
  updated_at = env.timestamptz now;
  settled_at = none;
  failed_at = none;
}

-- `CreatePayment` of a payment that `createPayment` builds fails and changes no table, or appends
-- its row to rows that have none with its id.
insert_row :
    (env : Services) (fresh : ℕ) (amount : Decimal) (w : World)
    → fresh ≢ 0
    → let p = new_row env fresh amount w.clock in
      let (r, w') = Repository.create_payment env fresh (new_payment fresh amount w.clock) w in
      (IsErr r × (w'.store ≡ w.store))
      ⊎ ((r ≡ ok (record p { amount = amount }))
          × ((rows_affected fresh w.payments == 0) ≡ true)
          × (w'.store ≡ record (w.store) { payments = w.payments ++ p ∷ [] }))
unfolding Repository.create_payment io
insert_row env fresh amount w real = ground (arith, ==_iff fresh 0)

-- The new row stands in the table, no row had its id, and every other payment is as it was.
abbrev pub Inserted : Payment → World → World → Type 0
Inserted p w w' =
    ((view p.id w).row ≡ none)
    × ((view p.id w').row ≡ some p)
    × ((view p.id w').history ≡ (view p.id w).history)
    × ((id : ℕ) → id ≢ p.id → view id w' ≡ view id w)

no_row : (id : ℕ) (ps : List Payment) → (rows_affected id ps == 0) ≡ true → find_row id ps ≡ none
unfolding find_row rows_affected
no_row id [] h = refl
no_row id (p ∷ ps) h = ground (arith, no_row id ps)

pub insertion :
    (p : Payment) (w w' : World)
    → (rows_affected p.id w.payments == 0) ≡ true
    → w'.store ≡ record (w.store) { payments = w.payments ++ p ∷ [] }
    → Inserted p w w'
unfolding view_store
insertion p w w' free e = (
  no_row p.id w.payments free,
  rw e (ground (arith, find_row-append p.id w.payments p)),
  rw e refl,
  λ id apart. rw e (ground (arith, find_row-append id w.payments p, no_row id w.payments)),
)

-- What the workflow is started with.
abbrev pub workflow_input : ℕ → CreatePaymentRequest → PaymentWorkflowInput
workflow_input fresh req = record {
  payment_id = fresh;
  amount = req.amount;
  account_number = req.account_number;
  routing_number = req.routing_number;
}

module _ (env : Services) (new_from_string : Text → Option Decimal)
    (execute_workflow : Text → PaymentWorkflowInput → Action (Unit {0})) (uuid_string : ℕ → Text)
    (fresh : ℕ) where
  -- The answer behind the row: 201 exactly if the workflow was started.
  abbrev pub Answered : CreatePaymentRequest → World → Response × World → Type 0
  Answered req w₁ out =
      let (r, w₂) = execute_workflow (uuid_string fresh) (workflow_input fresh req) w₁ in
      (out.1 ≡ w₂)
      × (((r ≡ ok tt)
            × (out.0 ≡ record {
              status = 201;
              body = created (record { payment_id = uuid_string fresh; state = initiated });
            }))
          ⊎ (IsErr r
              × (out.0 ≡ record { status = 500; body = error_body "failed to start workflow" })))

  started-Answered :
      (req : CreatePaymentRequest) (w : World)
      → Answered req w (started env new_from_string execute_workflow uuid_string fresh req w)
  started-Answered req w = ground arith

  -- The insert was refused, or the row is there and the workflow is started.
  abbrev pub Persisted : CreatePaymentRequest → Decimal → World → Response × World → Type 0
  Persisted req amount w out =
      ((out.0 ≡ record { status = 500; body = error_body "failed to persist payment" })
        × (out.1.store ≡ w.store))
      ⊎ ((w₁ : World) × Inserted (new_row env fresh amount w.clock) w w₁ × Answered req w₁ out)

  persisted :
      (req : CreatePaymentRequest) (amount : Decimal) (w : World) (out : Result Payment × World)
      → let p = new_row env fresh amount w.clock in
        (IsErr out.0 × (out.1.store ≡ w.store))
          ⊎ ((out.0 ≡ ok (record p { amount = amount }))
              × ((rows_affected fresh w.payments == 0) ≡ true)
              × (out.1.store ≡ record (w.store) { payments = w.payments ++ p ∷ [] }))
        → Persisted req amount w (
            written_or "failed to persist payment" out
              (λ _. started env new_from_string execute_workflow uuid_string fresh req))
  persisted req amount w (err e, w₁) (inl (_, same)) = inl (refl, same)
  persisted req amount w (err e, w₁) (inr (bad, _, _)) = absurd (ground arith)
  persisted req amount w (ok q, w₁) (inl (bad, _)) = absurd bad
  persisted req amount w (ok q, w₁) (inr (_, free, e)) =
      inr (w₁, insertion (new_row env fresh amount w.clock) w w₁ free e, started-Answered req w₁)

  -- `createPayment` of a decoded request, on every branch, where the fresh UUID is not the nil one.
  -- A request that the checks refuse is answered 400 with their message, and nothing changes.
  -- Otherwise the row cannot be inserted, the answer is 500, and no table changes; or the row stands
  -- in INITIATED with an id that no row had, with what the columns keep of the amount of the request
  -- and of the time, every other payment is as it was, and the workflow is started on it once, after which nothing else happens: the answer is
  -- 201 if the start succeeds, and 500 if it fails.
  pub create_payment_lem :
      (req : CreatePaymentRequest) (w : World)
      → fresh ≢ 0
      → let out =
          create_payment env new_from_string execute_workflow uuid_string fresh (some req) w in
        ((message : String) × (create_problem req (new_from_string req.amount) ≡ inl message)
          × (out ≡ (record { status = 400; body = error_body message }, w)))
        ⊎ ((amount : Decimal) × (create_problem req (new_from_string req.amount) ≡ inr amount)
            × Persisted req amount w out)
  unfolding create_payment
  create_payment_lem req w real = by_problem (create_problem req (new_from_string req.amount))
    where
      by_problem :
          (c : String ⊎ Decimal)
          → let out = on_create env new_from_string execute_workflow uuid_string fresh req c w in
            ((message : String) × (c ≡ inl message)
              × (out ≡ (record { status = 400; body = error_body message }, w)))
            ⊎ ((amount : Decimal) × (c ≡ inr amount) × Persisted req amount w out)
      by_problem (inl message) = inl (message, refl, refl)
      by_problem (inr amount) = inr (
        amount,
        refl,
        persisted req amount w
            (Repository.create_payment env fresh (new_payment fresh amount w.clock) w)
            (insert_row env fresh amount w real),
      )
