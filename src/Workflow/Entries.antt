-- ===== src/Workflow/Entries.antt =====
-- The entries that a run of `SubmitToACH` sends: how many, and what they say.
use mathlib.Core.List.{append-nil, append_assoc}
use ach_orchestrator.Workflow.Frame.{Runs}
use ach_orchestrator.Base.{
  ℕ, suc, ◌+◌, ◌≤◌, List, [], ◌∷◌, ◌++◌, ◌≡◌, refl, sym, ◌∙◌, ap, arith, length, length-append, All,
  All-append,
}
use ach_orchestrator.World.{SubmitToAchInput, World, Result, Action, ◌>>=◌, world_rule}
use ach_orchestrator.World.View.{View, view, submissions_of}
use ach_orchestrator.Services.{Attempts, gave_up, last, again}
use ach_orchestrator.Workflow.Types.{PaymentWorkflowInput}

-- The entry is the debit that the input of the workflow orders.
abbrev pub IsOrdered : PaymentWorkflowInput → SubmitToAchInput → Type 0
IsOrdered input i =
    (i.payment_id ≡ input.payment_id)
    × (i.amount ≡ input.amount)
    × (i.account_number ≡ input.account_number)
    × (i.routing_number ≡ input.routing_number)

-- At most `k` entries came to those that were sent, each of them as ordered.
pub record Adds (input : PaymentWorkflowInput) (k : ℕ) (v v' : View) : Type 0 where
  pub new : List SubmitToAchInput
  pub sent : v'.sent ≡ v.sent ++ new
  pub few : length new ≤ k
  pub ordered : All (IsOrdered input) new

module _ (input : PaymentWorkflowInput) where
  pub Adds-same : (k : ℕ) (v v' : View) → v'.sent ≡ v.sent → Adds input k v v'
  Adds-same k v v' e = record {
    new = [];
    sent = e ∙ sym (append-nil v.sent);
    few = omega arith;
    ordered = tt;
  }

  Adds-trans :
      (j k : ℕ) (u v w : View) → Adds input j u v → Adds input k v w → Adds input (j + k) u w
  Adds-trans j k u v w a b = record {
    new = a.new ++ b.new;
    sent =
        b.sent
        ∙ ap (λ (l : List SubmitToAchInput). l ++ b.new) a.sent
        ∙ append_assoc u.sent a.new b.new;
    few = let h = a.few in let g = b.few in omega (arith, length-append a.new b.new);
    ordered = All-append (IsOrdered input) a.new b.new a.ordered b.ordered;
  }

  pub Adds-le : (j k : ℕ) (v v' : View) → j ≤ k → Adds input j v v' → Adds input k v v'
  Adds-le j k v v' h a = record {
    new = a.new;
    sent = a.sent;
    few = let g = a.few in omega arith;
    ordered = a.ordered;
  }

-- No entry was sent.
abbrev pub Unsent : View → View → Type 0
Unsent v v' = v'.sent ≡ v.sent

pub Unsent-refl : (v : View) → Unsent v v
Unsent-refl v = refl

pub Unsent-trans : (u v w : View) → Unsent u v → Unsent v w → Unsent u w
Unsent-trans u v w h k = k ∙ h

pub submissions_of-concat :
    (id : ℕ) (is : List SubmitToAchInput) (i : SubmitToAchInput)
    → i.payment_id ≡ id
    → submissions_of id (is ++ i ∷ []) ≡ submissions_of id is ++ i ∷ []
unfolding submissions_of
submissions_of-concat id [] i e = ground arith
submissions_of-concat id (x ∷ is) i e = ground (arith, submissions_of-concat id is i e)

module _ (input : PaymentWorkflowInput) where
  -- Every run of the action sends at most `k` entries, each as ordered.
  abbrev pub Sending : {A : Type 0} → ℕ → Action A → Type 0
  Sending k m = (w : World) → Adds input k (view input.payment_id w) (view input.payment_id (m w).1)

  Sending-Unsent :
      {A : Type 0} (k : ℕ) (m : Action A)
      → Runs Unsent Unsent-refl Unsent-trans input.payment_id m
      → Sending k m
  Sending-Unsent k m h w =
      Adds-same input k (view input.payment_id w) (view input.payment_id (m w).1) (h w)

  pub Sending-bind :
      {A B : Type 0} (j k : ℕ) (m : Action A) (f : A → Action B)
      → Sending j m
      → ((a : A) → Sending k (f a))
      → Sending (j + k) (m >>= f)
  Sending-bind j k m f hm hf w =
      let id = input.payment_id in
      world_rule (λ w'. Adds input (j + k) (view id w) (view id w')) m f w
        (Adds-le input j (j + k) (view id w) (view id (m w).1) (omega arith) (hm w))
        (λ a _.
          Adds-trans input j k (view id w) (view id (m w).1) (view id (f a (m w).1).1) (hm w)
            (hf a (m w).1))

  -- An action that sends nothing does not count.
  pub Sending-then :
      {A B : Type 0} (k : ℕ) (m : Action A) (f : A → Action B)
      → Runs Unsent Unsent-refl Unsent-trans input.payment_id m
      → ((a : A) → Sending k (f a))
      → Sending k (m >>= f)
  Sending-then k m f hm hf w =
      let e : 0 + k ≡ k = omega arith in
      let h = Sending-bind 0 k m f (Sending-Unsent 0 m hm) hf w in
      Adds-le input (0 + k) k (view input.payment_id w) _ (omega arith) h

  pub Sending-Attempts :
      {A : Type 0} (act : Action A) (out : Result A × World) {n : ℕ} (w : World)
      → Sending 1 act
      → Attempts input.payment_id act out n w
      → Adds input n (view input.payment_id w) (view input.payment_id out.1)
  Sending-Attempts act out {n} w h (gave_up bad same) =
      Adds-same input n _ _ (ap (λ (v : View). v.sent) same)
  Sending-Attempts act out w h (last w₁ same r e) =
      rw (e, ← same) (Adds-le input 1 _ _ _ (omega arith) (h w₁))
  Sending-Attempts act out w h (again {n} w₁ same rest) =
      let id = input.payment_id in
      rw (← same) (
        Adds-le input (1 + n) (suc n) _ _ (omega arith) (
          Adds-trans input 1 n (view id w₁) (view id (act w₁).1) (view id out.1) (h w₁)
            (Sending-Attempts act out (act w₁).1 h rest)))
