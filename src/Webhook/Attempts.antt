-- ===== src/Webhook/Attempts.antt =====
-- How often a webhook is posted, and that its failure reaches nobody.
use mathlib.Core.List.{cons≢nil}
use ach_orchestrator.Base.{
  ℕ, ◌+◌, ◌≤◌, Option, none, some, List, [], ◌∷◌, ◌≡◌, refl, arith, length, Bool-cases, inl, inr,
}
use ach_orchestrator.Base.Text.{Text}
use ach_orchestrator.Domain.Payment.{Payment}
use ach_orchestrator.World.{World, Result, ok, err, Action}
use ach_orchestrator.Webhook.{
  Network, do_post, attempts, notify_webhook, after_post, with_body, delays,
}

module _ (net : Network) (posts : World → ℕ)
    (one_post : (url body : Text) (w : World) → posts (net.http_do url body w).1 ≤ posts w + 1)
    (no_post : (delay : ℕ) (w : World) → posts (net.wait delay w).1 ≡ posts w) where
  do_post-posts : (url body : Text) (w : World) → posts (do_post net url body w).1 ≤ posts w + 1
  unfolding do_post
  do_post-posts url body w = ground (arith, one_post url body w)

  -- The rest adds at most one post for each delay that is left.
  abbrev Rest : Action (Unit {0}) → ℕ → Type 0
  Rest act k = (w : World) → ((act w).0 ≡ ok tt) × (posts (act w).1 ≤ posts w + k)

  after_post-posts :
      (r : Result (Unit {0})) (delay : ℕ) (more : List ℕ) (next : Action (Unit {0}))
      → Rest next (length more)
      → Rest (after_post net r delay more next) (length more)
  after_post-posts (ok u) delay more next h w = (refl, omega arith)
  after_post-posts (err e) delay [] next h w = (refl, omega arith)
  after_post-posts (err e) delay (d ∷ ds) next h w =
      let (elapsed, w') = net.wait delay w in
      let same = no_post delay w in
      elim (Bool-cases elapsed) [
        | inl e ↦ rw e ((h w').0, omega (arith, (h w').1, same))
        | inr e ↦ rw e (refl, omega (arith, same))
      ]

  attempts-posts : (url body : Text) (ds : List ℕ) → Rest (attempts net url body ds) (length ds)
  unfolding attempts
  attempts-posts url body [] w = (refl, omega arith)
  attempts-posts url body (d ∷ ds) w =
      let (r, w') = do_post net url body w in
      let (quiet, posted) =
        after_post-posts r d ds (attempts net url body ds) (attempts-posts url body ds) w' in
      (quiet, omega (arith, posted, do_post-posts url body w))

  with_body-posts : (url : Text) (o : Option Text) → Rest (with_body net url o) 3
  with_body-posts url none w = (refl, omega arith)
  with_body-posts url (some body) w = attempts-posts url body delays w

  -- Whatever the network does, `NotifyWebhook` returns nil, and it posts at most three times; without
  -- a URL it does nothing at all. Posts are counted by any measure of the world that a request
  -- raises by at most one and a wait leaves alone.
  pub notify_webhook-posts :
      (url : Text) (p : Payment) (w : World)
      → ((notify_webhook net url p w).0 ≡ ok tt)
        × (posts (notify_webhook net url p w).1 ≤ posts w + 3)
        × (url ≡ [] → (notify_webhook net url p w).1 ≡ w)
  unfolding notify_webhook
  notify_webhook-posts [] p w = (refl, omega arith, λ _. refl)
  notify_webhook-posts (c ∷ url) p w =
      let (quiet, posted) = with_body-posts (c ∷ url) (net.marshal _) w in
      (quiet, posted, λ e. absurd (cons≢nil e))
