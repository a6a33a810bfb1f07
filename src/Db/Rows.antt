-- ===== src/Db/Rows.antt =====
-- What an update leaves in the rows, and what it shows of one payment.
use mathlib.Core.Option
use ach_orchestrator.Base.{
  ℕ, false, none, List, [], ◌∷◌, ◌++◌, ◌≡◌, ◌≢◌, refl, arith, ◌==◌, if◌then◌else◌,
}
use ach_orchestrator.Base.Text.{Text}
use ach_orchestrator.Domain.Payment.{PaymentState, Payment}
use ach_orchestrator.World.{World, ok, io}
use ach_orchestrator.World.View.{View, view, view_store, find_row, entries_of-concat}
use ach_orchestrator.Db.Repository.{update_rows, rows_affected, moved, audit_entry, update_tx}

-- The row of an id after an update of the rows of another or the same id.
pub find_row-update :
    (id j : ℕ) (f : Payment → Payment) (ps : List Payment)
    → ((p : Payment) → (f p).id ≡ p.id)
    → find_row j (update_rows id f ps)
      ≡ (if id == j then Option.map f (find_row j ps) else find_row j ps)
unfolding find_row update_rows
find_row-update id j f [] h = ground arith
find_row-update id j f (p ∷ ps) h = ground (arith, h p, find_row-update id j f ps h)

-- An update that affected a row had one.
pub rows_affected-row :
    (id : ℕ) (ps : List Payment) → (rows_affected id ps == 0) ≡ false → find_row id ps ≢ none
unfolding rows_affected find_row
rows_affected-row id [] h = cc
rows_affected-row id (p ∷ ps) h = ground (arith, rows_affected-row id ps)

-- What the payment `id` looks like after `p` has moved.
abbrev pub moved_view : Payment → PaymentState → Text → ℕ → View → View
moved_view p to reason now v = record v {
  row = Option.map (moved to now) v.row;
  history = v.history ++ audit_entry p to reason now ∷ [];
}

pub update_tx-view :
    (p : Payment) (to : PaymentState) (reason : Text) (now id : ℕ) (w : World)
    → (update_tx p to reason now w).0 ≡ ok tt
    → ((view p.id w).row ≢ none)
      × (view id (update_tx p to reason now w).1
          ≡ (if p.id == id then moved_view p to reason now (view id w) else view id w))
unfolding update_tx view_store io
update_tx-view p to reason now id w h = ground (
  arith,
  rows_affected-row p.id w.payments,
  find_row-update p.id id (moved to now) w.payments (λ _. refl),
  entries_of-concat id w.audit_log (audit_entry p to reason now),
)
