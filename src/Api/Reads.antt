-- ===== src/Api/Reads.antt =====
-- The endpoints that read a payment, and what they answer once its workflow has completed.
use Prim.Native.String.{String}
use mathlib.Core.List.{Perm}
use mathlib.Core.Path.{subst}
use ach_orchestrator.Base.{
  ℕ, Bool, Option, none, some, inl, inr, List, map, ◌≡◌, ◌≢◌, ◌⊎◌, refl, ap, arith,
}
use ach_orchestrator.Base.Text.{Text}
use ach_orchestrator.Base.Sorting.{IsSorted}
use ach_orchestrator.Domain.Payment.{Payment}
use ach_orchestrator.World.{AuditEntry, World, Result, ok, err, IsErr}
use ach_orchestrator.World.View.{view, view_store}
use ach_orchestrator.Db.Repository.{not_later, get_payment_by_id, get_audit_log_by_payment_id}
use ach_orchestrator.Db.Reads.{Fails, Serves, row_read, get_audit_log_by_payment_id_lem}
use ach_orchestrator.Api.Responses.{
  PaymentStatusResponse, AuditEntryResponse, Response, Body, error_body, payment_body, audit_body,
  parse_uuid, with_id, written_or, write_json,
}
use ach_orchestrator.Api.Handlers.{entry_response, get_payment, get_audit, found_payment, audited}

ok_injective : {A : Type 0} {a b : A} → ok a ≡ ok b → a ≡ b
ok_injective e = cc e

abbrev pub Answers : ℕ → Body → Response × World → Type 0
Answers status body out = out.0 ≡ record { status = status; body = body }

-- What the columns of a row say, and an entry of the audit log, written out.
abbrev pub row_shown : (ℕ → Text) → Payment → PaymentStatusResponse
row_shown uuid_string p = record {
  payment_id = uuid_string p.id;
  state = p.state;
  representment_count = p.representment_count;
  trace_number = p.trace_number;
  created_at = p.created_at;
  updated_at = p.updated_at;
  settled_at = p.settled_at;
  failed_at = p.failed_at;
}

abbrev pub entry_shown : (ℕ → Text) → (AuditEntry → ℕ) → AuditEntry → AuditEntryResponse
entry_shown uuid_string entry_id e = record {
  id = uuid_string (entry_id e);
  payment_id = uuid_string e.payment_id;
  from_state = e.from_state;
  to_state = e.to_state;
  reason = e.reason;
  created_at = e.created_at;
}

module _ (uuid_string : ℕ → Text) where
  -- The answer for a payment: 500 if the read fails, or what the row says.
  abbrev pub RowAnswered : ℕ → World → Response × World → Type 0
  RowAnswered id w out =
      (Fails w.faults × Answers 500 (error_body "database error") out)
      ⊎ ((((view id w).row ≡ none) × Answers 404 (error_body "payment not found") out)
          ⊎ ((p : Payment) × ((view id w).row ≡ some p)
              × Answers 200 (payment_body (row_shown uuid_string p)) out))

  answered :
      (id : ℕ) (w : World) (read : Result (Option Payment) × World)
      → read.1.store ≡ w.store
      → (IsErr read.0 × Fails w.faults)
        ⊎ ((read.0 ≡ ok (view id w).row) × Serves w.faults read.1.faults)
      → let out = written_or "database error" read (found_payment uuid_string) in
        (out.1.store ≡ w.store) × RowAnswered id w out
  answered id w (err e, w') same (inl (_, fails)) = (same, inl (fails, refl))
  answered id w (err e, w') same (inr (bad, _)) = absurd (ground arith)
  answered id w (ok none, w') same (inr (h, _)) = (same, inr (inl (ground arith, refl)))
  answered id w (ok (some p), w') same (inr (h, _)) = (same, inr (inr (p, ground arith, refl)))
  answered id w (ok o, w') same (inl (bad, _)) = absurd bad

  row_answered :
      (id : ℕ) (w : World)
      → let out =
          written_or "database error" (get_payment_by_id id w) (found_payment uuid_string) in
        (out.1.store ≡ w.store) × RowAnswered id w out
  row_answered id w = let (same, h) = row_read id w in answered id w (get_payment_by_id id w) same h

module _ (uuid_string : ℕ → Text) (entry_id : AuditEntry → ℕ) where
  -- The audit log of a payment, once its id is known.
  abbrev pub AuditAnswered : ℕ → World → Response × World → Type 0
  AuditAnswered id w out =
      (Fails w.faults × Answers 500 (error_body "database error") out)
      ⊎ (((rest : List Bool) × Serves w.faults rest
            × Fails rest
            × ((view id w).row ≢ none)
            × Answers 500 (error_body "failed to fetch audit log") out)
          ⊎ ((((view id w).row ≡ none) × Answers 404 (error_body "payment not found") out)
              ⊎ (((view id w).row ≢ none)
                  × (es : List AuditEntry) × Perm es (view id w).history
                  × IsSorted not_later es
                  × Answers 200 (audit_body (map (entry_shown uuid_string entry_id) es)) out)))

  listed :
      (id : ℕ) (w w' : World) (read : Result (List AuditEntry) × World)
      → w'.store ≡ w.store
      → (view id w).row ≢ none
      → Serves w.faults w'.faults
      → (IsErr read.0 × Fails w'.faults)
        ⊎ ((es : List AuditEntry) × (read.0 ≡ ok es)
            × Perm es (view id w').history
            × IsSorted not_later es)
      → AuditAnswered id w (
          written_or "failed to fetch audit log" read
            (λ logs. write_json 200 (audit_body (map (entry_response uuid_string entry_id) logs))))
  listed id w w' (err e, w₁) same there serves (inl (_, fails)) =
      inr (inl (w'.faults, serves, fails, there, refl))
  listed id w w' (err e, w₁) same there serves (inr (es, bad, _, _)) = absurd (ground arith)
  listed id w w' (ok es, w₁) same there serves (inl (bad, _)) = absurd bad
  listed id w w' (ok es, w₁) same there serves (inr (es', e, perm, sorted)) =
      let moved = ap (λ s. (view_store id s).history) same in
      inr (
        inr
          (inr (there, es', subst (λ h. Perm es' h) moved perm, sorted, rw (ok_injective e) refl)))

  audit_answered :
      (id : ℕ) (w : World) (read : Result (Option Payment) × World)
      → read.1.store ≡ w.store
      → (IsErr read.0 × Fails w.faults)
        ⊎ ((read.0 ≡ ok (view id w).row) × Serves w.faults read.1.faults)
      → AuditAnswered id w (written_or "database error" read (audited uuid_string entry_id id))
  audit_answered id w (err e, w') same (inl (_, fails)) = inl (fails, refl)
  audit_answered id w (err e, w') same (inr (bad, _)) = absurd (ground arith)
  audit_answered id w (ok none, w') same (inr (h, _)) = inr (inr (inl (ground arith, refl)))
  audit_answered id w (ok (some p), w') same (inr (h, serves)) =
      listed id w w' (get_audit_log_by_payment_id id w') same (λ e. ground arith) serves
        (get_audit_log_by_payment_id_lem id w').1
  audit_answered id w (ok o, w') same (inl (bad, _)) = absurd bad

module _ (uuid_parse : Text → Option ℕ) (uuid_string : ℕ → Text) where
  -- `getPayment` changes no table. It answers 400 exactly if the parameter is no UUID; otherwise 500
  -- only if the call of the database fails, 404 only if there is no row of this id, and 200 only
  -- with what the columns of its row say, field by field.
  pub get_payment_lem :
      (raw : Text) (w : World)
      → let out = get_payment uuid_parse uuid_string raw w in
        (out.1.store ≡ w.store)
        × (((message : String) × (parse_uuid uuid_parse raw ≡ inl message)
              × Answers 400 (error_body message) out)
            ⊎ ((id : ℕ) × (parse_uuid uuid_parse raw ≡ inr id) × RowAnswered uuid_string id w out))
  unfolding get_payment
  get_payment_lem raw w = by_id (parse_uuid uuid_parse raw)
    where
      by_id :
          (x : String ⊎ ℕ)
          → let out =
              with_id x
                (λ id w.
                  written_or "database error" (get_payment_by_id id w) (found_payment uuid_string))
                w in
            (out.1.store ≡ w.store)
            × (((message : String) × (x ≡ inl message) × Answers 400 (error_body message) out)
                ⊎ ((id : ℕ) × (x ≡ inr id) × RowAnswered uuid_string id w out))
      by_id (inl message) = (refl, inl (message, refl, refl))
      by_id (inr id) =
          ((row_answered uuid_string id w).0, inr (id, refl, (row_answered uuid_string id w).1))

  -- `getAudit` of an id answers 500 only if one of its two calls of the database fails, with a message
  -- that says which; 404 only if there is no such payment; and 200 only if there is one, with exactly
  -- the entries of its audit log, field by field, in the order of their times.
  pub get_audit_lem :
      (entry_id : AuditEntry → ℕ) (raw : Text) (id : ℕ) (w : World)
      → parse_uuid uuid_parse raw ≡ inr id
      → AuditAnswered uuid_string entry_id id w (get_audit uuid_parse uuid_string entry_id raw w)
  unfolding get_audit
  get_audit_lem entry_id raw id w named =
      let (same, h) = row_read id w in
      rw named (audit_answered uuid_string entry_id id w (get_payment_by_id id w) same h)
