-- ===== src/RateLimit/Isolation.antt =====
-- internal/ratelimit/limiter.go over any sequence of requests: whether a client is let through depends
-- on that client's own requests only.
use terraform_provider_viett.Prelude.{
  ℕ, String, ◌≡◌, refl, ap, ◌∙◌, Bool, Option, none, some, List, [], ◌∷◌, ◌==◌, if◌then◌else◌,
}
use mathlib.Core.Path.{ap₂}
use terraform_provider_viett.Go.Dict
use terraform_provider_viett.RateLimit.{Limiters, Manager, new_manager, middleware}
use terraform_provider_viett.RateLimit.Clients.{
  IsValid, bucket, or_full, middleware-IsValid, middleware_answer, bucket-middleware,
  middleware-rate, new_manager-IsValid,
}

-- A request as Middleware sees it: the client's address, and the clock when the bucket is looked up and
-- when it is asked.
pub record Request : Type 0 where
  pub client_ip : String
  pub now : ℕ
  pub now' : ℕ

module _ {L : Type 0} (limiters : Limiters L) where
  open limiters use {Rate, make, allow}

  unfoldable pub serve : Request → Manager Rate L → Bool × Manager Rate L
  serve r m = middleware limiters r.client_ip r.now r.now' m

  unfoldable pub serve_all : List Request → Manager Rate L → Manager Rate L
  unfolding serve
  serve_all [] m = m
  serve_all (r ∷ rs) m = serve_all rs (serve r m).1

  -- the bucket of one client after the requests of that client, and no others
  unfoldable pub own_bucket : L → String → List Request → Option L → Option L
  own_bucket full client [] l = l
  own_bucket full client (r ∷ rs) l =
      own_bucket full client rs
        (if r.client_ip == client then some (allow r.now' (or_full full l)).1 else l)

  bucket-serve_all :
      (rs : List Request) (m : Manager Rate L) (client : String)
      → IsValid limiters m
      → (bucket limiters (serve_all rs m) client
          ≡ own_bucket (make m.rate m.burst) client rs (bucket limiters m client))
        × (make (serve_all rs m).rate (serve_all rs m).burst ≡ make m.rate m.burst)
  unfolding serve_all own_bucket
  bucket-serve_all [] m client valid = (refl, refl)
  bucket-serve_all (r ∷ rs) m client valid =
      let m' = (serve r m).1 in
      let (rate, burst) = middleware-rate limiters r.client_ip r.now r.now' m in
      let full : make m'.rate m'.burst ≡ make m.rate m.burst = cc (rate, burst) in
      let (later, same) =
        bucket-serve_all rs m' client
          (middleware-IsValid limiters r.client_ip r.now r.now' m valid) in
      (
        later
            ∙ ap (λ l. own_bucket l client rs (bucket limiters m' client)) full
            ∙ ap (own_bucket (make m.rate m.burst) client rs)
                (bucket-middleware limiters r.client_ip r.now r.now' m client valid),
        same ∙ full,
      )

  -- Starting from a new manager, whatever requests of whatever clients came before: a request goes on
  -- exactly if `Allow` says so for a bucket that was full at first and has served the earlier requests
  -- of the same client and no others.
  pub serve-own_bucket :
      (rate : Rate) (burst ttl : ℕ) (blank : ℕ → L) (rs : List Request) (r : Request)
      → (serve r (serve_all rs (new_manager limiters rate burst ttl blank))).0
        ≡ (allow r.now'
            (or_full (make rate burst) (own_bucket (make rate burst) r.client_ip rs none))).0
  unfolding serve new_manager Dict.get
  serve-own_bucket rate burst ttl blank rs r =
      let m = new_manager limiters rate burst ttl blank in
      let (before, full) =
        bucket-serve_all rs m r.client_ip (new_manager-IsValid limiters rate burst ttl blank) in
      middleware_answer limiters r.client_ip r.now r.now' (serve_all rs m)
      ∙ ap₂ (λ l o. (allow r.now' (or_full l o)).0) full before
