-- ===== src/World/View.antt =====
-- What the store holds of one payment.
use ach_orchestrator.Base.{
  ℕ, Option, none, some, List, [], ◌∷◌, ◌++◌, ◌≡◌, arith, ◌==◌, if◌then◌else◌,
}
use ach_orchestrator.Domain.Payment.{Payment}
use ach_orchestrator.World.Tables.{AuditEntry, SubmitToAchInput, Store, World}

-- The row of the primary key.
unfoldable pub find_row : ℕ → List Payment → Option Payment
find_row id [] = none
find_row id (p ∷ ps) = if p.id == id then some p else find_row id ps

-- `WHERE payment_id = $1`, in the order of insertion
unfoldable pub entries_of : ℕ → List AuditEntry → List AuditEntry
entries_of id [] = []
entries_of id (e ∷ es) =
    let rest = entries_of id es in if e.payment_id == id then e ∷ rest else rest

unfoldable pub submissions_of : ℕ → List SubmitToAchInput → List SubmitToAchInput
submissions_of id [] = []
submissions_of id (i ∷ is) =
    let rest = submissions_of id is in if i.payment_id == id then i ∷ rest else rest

unfoldable pub webhooks_of : ℕ → List Payment → List Payment
webhooks_of id [] = []
webhooks_of id (p ∷ ps) = let rest = webhooks_of id ps in if p.id == id then p ∷ rest else rest

pub record View : Type 0 where
  pub row : Option Payment
  pub history : List AuditEntry
  pub sent : List SubmitToAchInput
  pub notified : List Payment

unfoldable pub view_store : ℕ → Store → View
view_store id s = record {
  row = find_row id s.payments;
  history = entries_of id s.audit_log;
  sent = submissions_of id s.submitted;
  notified = webhooks_of id s.webhooks;
}

abbrev pub view : ℕ → World → View
view id w = view_store id w.store

-- The row found has the id asked for.
pub find_row-id : (id : ℕ) (ps : List Payment) {p : Payment} → find_row id ps ≡ some p → p.id ≡ id
unfolding find_row
find_row-id id [] h = cc
find_row-id id (q ∷ ps) {p} h = ground (arith, find_row-id id ps {p = p})

pub entries_of-concat :
    (id : ℕ) (es : List AuditEntry) (e : AuditEntry)
    → entries_of id (es ++ e ∷ [])
      ≡ (if e.payment_id == id then entries_of id es ++ e ∷ [] else entries_of id es)
unfolding entries_of
entries_of-concat id [] e = ground arith
entries_of-concat id (x ∷ es) e = ground (arith, entries_of-concat id es e)

pub webhooks_of-concat :
    (id : ℕ) (ps : List Payment) (p : Payment)
    → p.id ≡ id
    → webhooks_of id (ps ++ p ∷ []) ≡ webhooks_of id ps ++ p ∷ []
unfolding webhooks_of
webhooks_of-concat id [] p e = ground arith
webhooks_of-concat id (x ∷ ps) p e = ground (arith, webhooks_of-concat id ps p e)
