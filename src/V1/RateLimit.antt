-- ===== src/V1/RateLimit.antt =====
-- src/middleware/rateLimit.ts: how many requests a minute a client may make, which the limiter of
-- the framework counts, and what it is told beyond that, while Redis is up or down.
use res_ex_machina.Common.{
  ℕ, ◌≤◌, ◌≡◌, ◌↔◌, Bool, true, false, not, ◌&&◌, List, [], ◌∷◌, Text, codes, arith, text_eq,
  if◌then◌else◌, any_of, starts_with,
}

pub data Policy : Type 0 where
  refuse_503 local_fallback : Policy

pub record HttpRequest : Type 0 where
  pub method : Text
  pub url : Text

-- What the Redis client reports.
pub data RedisEvent : Type 0 where
  redis_error redis_connect : RedisEvent

abbrev pub fallback_read_max : ℕ
fallback_read_max = 30

abbrev pub fallback_write_max : ℕ
fallback_write_max = 5

abbrev pub global_read_max : ℕ
global_read_max = 100

abbrev pub global_write_max : ℕ
global_write_max = 10

-- `redisHealthy` after an event.
unfoldable pub on_event : RedisEvent → Bool → Bool
on_event redis_error healthy = false
on_event redis_connect healthy = true

unfoldable pub on_events : List RedisEvent → Bool → Bool
on_events [] healthy = healthy
on_events (e ∷ es) healthy = on_events es (on_event e healthy)

abbrev pub write_route_prefixes : List Text
write_route_prefixes = codes "/v1/records" ∷ codes "/v1/webhooks" ∷ []

unfoldable pub is_write_request : HttpRequest → Bool
is_write_request r =
    if not
      (any_of (text_eq r.method) (codes "POST" ∷ codes "PUT" ∷ codes "PATCH" ∷ codes "DELETE" ∷ []))
    then false
    else any_of (λ prefix. starts_with prefix r.url) write_route_prefixes

is_503 : Policy → Bool
is_503 refuse_503 = true
is_503 local_fallback = false

-- The option `max`.
unfoldable pub max_requests : Policy → Bool → HttpRequest → ℕ
unfolding is_503
max_requests policy healthy r =
    let write = is_write_request r in
    if not healthy
    then if write then if is_503 policy then 0 else fallback_write_max else fallback_read_max
    else if write
    then global_write_max
    else global_read_max

pub data LimitAnswer : Type 0 where
  service_degraded : LimitAnswer
  rate_limit_exceeded : ℕ → Bool → LimitAnswer

-- `errorResponseBuilder`, with the limit and whether the service is degraded.
unfoldable pub error_response : Policy → Bool → HttpRequest → LimitAnswer
unfolding is_503
error_response policy healthy r =
    if not healthy && is_write_request r && is_503 policy
    then service_degraded
    else rate_limit_exceeded (max_requests policy healthy r) (not healthy)

-- Losing Redis never raises a limit, a write never has a higher limit than a read, and a write is
-- refused altogether, with the answer that the service is degraded, exactly when Redis is down and
-- the policy is to refuse.
pub max_requests-degrades :
    (policy : Policy) (r q : HttpRequest)
    → is_write_request r ≡ true
    → is_write_request q ≡ false
    → (healthy : Bool)
    → (max_requests policy false r ≤ max_requests policy true r)
      × (max_requests policy false q ≤ max_requests policy true q)
      × (max_requests policy healthy r ≤ max_requests policy healthy q)
      × ((max_requests policy healthy r ≡ 0) ↔ (error_response policy healthy r ≡ service_degraded))
      × ((max_requests policy healthy r ≡ 0) ↔ ((healthy ≡ false) × (policy ≡ refuse_503)))
unfolding max_requests error_response is_503
max_requests-degrades refuse_503 r q w v true = ground arith
max_requests-degrades refuse_503 r q w v false = ground arith
max_requests-degrades local_fallback r q w v true = ground arith
max_requests-degrades local_fallback r q w v false = ground arith
