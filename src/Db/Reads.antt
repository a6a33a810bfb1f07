-- ===== src/Db/Reads.antt =====
-- What the reads of several rows return.
use mathlib.Core.List.{Perm}
use mathlib.Core.Path.{subst}
use ach_orchestrator.Base.{
  All-take, All-drop, take-append-drop, length-take_le, ℕ, ◌≤◌, zero, suc, Bool, true, false, inl,
  inr, refl, List, [], ◌∷◌, ◌++◌, ◌≡◌, ◌⊎◌, sym, arith, length, take, drop, All,
}
use ach_orchestrator.Base.Sorting.{sort_by, IsSorted, sort_by-Perm, sort_by-IsSorted}
use ach_orchestrator.Domain.Payment.{Payment}
use ach_orchestrator.World.{AuditEntry, World, ok, IsErr, io}
use ach_orchestrator.World.View.{view, view_store}
use ach_orchestrator.Db.Repository.{
  not_later, not_older, get_payment_by_id, get_audit_log_by_payment_id, get_all_payments,
}

-- The two orders.
later_trans :
    (d e f : AuditEntry) → not_later d e ≡ true → not_later e f ≡ true → not_later d f ≡ true
later_trans d e f h k = ground arith

later_total : (d e : AuditEntry) → not_later d e ≡ false → not_later e d ≡ true
later_total d e h = ground arith

older_trans : (p q r : Payment) → not_older p q ≡ true → not_older q r ≡ true → not_older p r ≡ true
older_trans p q r h k = ground arith

older_total : (p q : Payment) → not_older p q ≡ false → not_older q p ≡ true
older_total p q h = ground arith

-- The next call of a service fails; and it does not, which leaves the script of the others.
abbrev pub Fails : List Bool → Type 0
Fails faults = (rest : List Bool) × (faults ≡ true ∷ rest)

abbrev pub Serves : List Bool → List Bool → Type 0
Serves faults rest = (faults ≡ false ∷ rest) ⊎ ((faults ≡ []) × (rest ≡ []))

-- The row, unless the one call fails; and no table changes.
pub row_read :
    (id : ℕ) (w : World)
    → let (r, w') = get_payment_by_id id w in
      (w'.store ≡ w.store)
      × ((IsErr r × Fails w.faults) ⊎ ((r ≡ ok (view id w).row) × Serves w.faults w'.faults))
unfolding get_payment_by_id io view_store
row_read id w = by_faults w.faults refl
  where
    by_faults :
        (fs : List Bool)
        → w.faults ≡ fs
        → let (r, w') = get_payment_by_id id w in
          (w'.store ≡ w.store)
          × ((IsErr r × Fails w.faults) ⊎ ((r ≡ ok (view id w).row) × Serves w.faults w'.faults))
    by_faults [] e = rw e (refl, inr (refl, inr (refl, refl)))
    by_faults (true ∷ fs) e = rw e (refl, inl (tt, (fs, refl)))
    by_faults (false ∷ fs) e = rw e (refl, inr (refl, inl refl))

-- The reads as they are: the sorted rows, unless the one call fails.
pub audit_read :
    (id : ℕ) (w : World)
    → let (r, w') = get_audit_log_by_payment_id id w in
      (w'.store ≡ w.store)
      × ((IsErr r × Fails w.faults) ⊎ (r ≡ ok (sort_by not_later (view id w).history)))
unfolding get_audit_log_by_payment_id io view_store
audit_read id w = by_faults w.faults refl
  where
    by_faults :
        (fs : List Bool)
        → w.faults ≡ fs
        → let (r, w') = get_audit_log_by_payment_id id w in
          (w'.store ≡ w.store)
          × ((IsErr r × Fails w.faults) ⊎ (r ≡ ok (sort_by not_later (view id w).history)))
    by_faults [] e = rw e (refl, inr refl)
    by_faults (true ∷ fs) e = rw e (refl, inl (tt, (fs, refl)))
    by_faults (false ∷ fs) e = rw e (refl, inr refl)

payments_read :
    (limit : ℕ) (w : World)
    → let (r, w') = get_all_payments limit w in
      (w'.store ≡ w.store) × (IsErr r ⊎ (r ≡ ok (take limit (sort_by not_older w.payments))))
unfolding get_all_payments io
payments_read limit w = ground arith

-- `GetAuditLogByPaymentID` fails with its call, or returns exactly the entries of the payment, each as often as it
-- was written, from the oldest to the latest; and it changes nothing.
pub get_audit_log_by_payment_id_lem :
    (id : ℕ) (w : World)
    → let (r, w') = get_audit_log_by_payment_id id w in
      (w'.store ≡ w.store)
      × ((IsErr r × Fails w.faults)
          ⊎ ((es : List AuditEntry) × (r ≡ ok es)
              × Perm es (view id w).history
              × IsSorted not_later es))
get_audit_log_by_payment_id_lem id w =
    let history = (view id w).history in
    (
      (audit_read id w).0,
      elim (audit_read id w).1 [
        | inl bad ↦ inl bad
        | inr e ↦ inr (
          sort_by not_later history,
          e,
          sort_by-Perm not_later history,
          sort_by-IsSorted not_later later_trans later_total history,
        )
      ],
    )

All-earlier :
    (p : Payment) (qs : List Payment)
    → All (λ q. not_older p q ≡ true) qs
    → All (λ q. q.created_at ≤ p.created_at) qs
All-earlier p [] h = tt
All-earlier p (q ∷ qs) (a, h) = (ground arith, All-earlier p qs h)

-- The first rows of a sorted list come before the others.
take-before :
    (n : ℕ) (ps : List Payment)
    → IsSorted not_older ps
    → IsSorted not_older (take n ps)
      × All (λ p. All (λ q. q.created_at ≤ p.created_at) (drop n ps)) (take n ps)
take-before zero ps h = (tt, tt)
take-before (suc n) [] h = (tt, tt)
take-before (suc n) (p ∷ ps) (first, h) =
    let (sorted, before) = take-before n ps h in
    (
      (All-take (λ q. not_older p q ≡ true) n ps first, sorted),
      (All-drop (λ q. q.created_at ≤ p.created_at) n ps (All-earlier p ps first), before),
    )

-- `GetAllPayments` fails, or returns the newest payments, at most `limit` of them, newest first: with
-- the others they are all the rows, and none of the others is newer than one that is returned. It
-- changes nothing.
pub get_all_payments_lem :
    (limit : ℕ) (w : World)
    → let (r, w') = get_all_payments limit w in
      (w'.store ≡ w.store)
      × (IsErr r
          ⊎ ((ps : List Payment) × (others : List Payment) × (r ≡ ok ps)
              × (length ps ≤ limit)
              × Perm (ps ++ others) w.payments
              × IsSorted not_older ps
              × All (λ p. All (λ q. q.created_at ≤ p.created_at) others) ps))
get_all_payments_lem limit w =
    let l = sort_by not_older w.payments in
    let (sorted, before) =
      take-before limit l (sort_by-IsSorted not_older older_trans older_total w.payments) in
    (
      (payments_read limit w).0,
      elim (payments_read limit w).1 [
        | inl bad ↦ inl bad
        | inr e ↦ inr (
          take limit l,
          drop limit l,
          e,
          length-take_le limit l,
          subst (λ m. Perm m w.payments) (sym (take-append-drop limit l))
              (sort_by-Perm not_older w.payments),
          sorted,
          before,
        )
      ],
    )
