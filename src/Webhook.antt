-- ===== src/Webhook.antt =====
-- internal/activities/notify_webhook.go: the notification of a terminal state.
pub mod Attempts
use ach_orchestrator.Base.{
  ℕ, zero, suc, ◌+◌, ◌*◌, Bool, true, false, not, ◌||◌, Option, none, some, List, [], ◌∷◌, ltb, leb,
  if◌then◌else◌,
}
use ach_orchestrator.Base.Text.{Text}
use ach_orchestrator.Domain.Payment.{PaymentState, Decimal, Payment}
use ach_orchestrator.World.{
  World, Action, Result, ok, err, Error, failed, pure, raise, gets, on_error, ◌>>=◌,
}
use ach_orchestrator.Workflow.Types.{second}

-- `type WebhookPayload struct`
pub record WebhookPayload : Type 0 where
  pub payment_id : Text
  pub state : PaymentState
  pub return_code : Text
  pub amount : Decimal
  pub trace_number : Text
  pub timestamp : ℕ

-- The HTTP client (the status of a response), the wait that the cancellation of the context can cut
-- short (false), the encoder and the text of a UUID are parameters.
pub record Network : Type 1 where
  pub http_do : Text → Text → Action ℕ
  pub wait : ℕ → World → Bool × World
  pub marshal : WebhookPayload → Option Text
  pub uuid_string : ℕ → Text

-- `delays`
abbrev pub delays : List ℕ
delays = 1 * second ∷ 2 * second ∷ 4 * second ∷ []

module _ (net : Network) where
  open net use {http_do, wait, marshal, uuid_string}

  -- `doPost`
  unfoldable pub do_post : Text → Text → Action (Unit {0})
  do_post url body = do
    status ← on_error "http do" (http_do url body)
    if ltb status 200 || leb 300 status then raise (failed "non-2xx status") else pure tt

  -- What follows an attempt: the end on success and after the last delay, and a wait before the
  -- next attempt, which the context can cut short.
  abbrev pub after_post : Result (Unit {0}) → ℕ → List ℕ → Action (Unit {0}) → Action (Unit {0})
  after_post (ok _) delay more next w = (ok tt, w)
  after_post (err e) delay [] next w = (ok tt, w)
  after_post (err e) delay (_ ∷ _) next w =
      let (elapsed, w') = wait delay w in if elapsed then next w' else (ok tt, w')

  -- The loop over the delays.
  unfoldable pub attempts : Text → Text → List ℕ → Action (Unit {0})
  unfolding do_post
  attempts url body [] w = (ok tt, w)
  attempts url body (delay ∷ more) w =
      let (r, w') = do_post url body w in after_post r delay more (attempts url body more) w'

  abbrev pub with_body : Text → Option Text → Action (Unit {0})
  with_body url none = pure tt
  with_body url (some body) = attempts url body delays

  -- `NotifyWebhook`, with the value of WEBHOOK_URL.
  unfoldable pub notify_webhook : Text → Payment → Action (Unit {0})
  unfolding attempts
  notify_webhook [] p = pure tt
  notify_webhook (c ∷ url) p = do
    now ← gets (λ w. w.clock)
    with_body (c ∷ url) (
        marshal (record {
          payment_id = uuid_string p.id;
          state = p.state;
          return_code = p.return_code;
          amount = p.amount;
          trace_number = p.trace_number;
          timestamp = now;
        }))
