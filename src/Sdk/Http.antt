-- ===== src/Sdk/Http.antt =====
-- packages/sdk/src/http.ts and errors.ts: a request with retries. What each call of `fetch` comes to
-- is an argument, by the number of the attempt.
pub mod Retries
use res_ex_machina.Common.{
  ℕ, zero, suc, ◌+◌, ◌*◌, ◌^◌, min, Bool, true, false, not, ◌&&◌, List, [], ◌∷◌, reverse, Option,
  none, some, Text, codes, leb, ltb, ◌==◌, if◌then◌else◌, is_some, or_else,
}

-- The slashes at the end of the address go; the loop runs from the end of the text.
abbrev drop_slashes : Text → Text
drop_slashes [] = []
drop_slashes (c ∷ s) = let rest = drop_slashes s in if c == b'/' then rest else c ∷ s

unfoldable pub trim_slashes : Text → Text
trim_slashes s = reverse (drop_slashes (reverse s))

-- What the client reads of the body of an error.
pub record ErrorBody : Type 0 where
  pub code : Option Text
  pub message : Option Text
  pub reset : Option ℕ

-- A response: its status, its JSON (`none` if `json` throws), and the body of an error.
pub record Response : Type 0 where
  pub status : ℕ
  pub json : Option Text
  pub error_body : ErrorBody

-- A call of `fetch` that throws has a message, and perhaps a property `code`.
pub data Fetched : Type 0 where
  fetch_threw : Option Text → Text → Fetched
  answered : Response → Fetched

-- An error: its code if it has one, its message, its status if it has one, and the time after which
-- a rate limit says to try again.
pub record RequestError : Type 0 where
  pub code : Option Text
  pub message : Text
  pub status_code : Option ℕ
  pub retry_after_ms : Option ℕ

unfoldable pub parse_api_error : ℕ → ErrorBody → RequestError
parse_api_error status body =
    if status == 429
    then record {
      code = some (codes "rate_limit_exceeded");
      message = codes "Rate limit exceeded";
      status_code = some 429;
      retry_after_ms = some (or_else body.reset 60000);
    }
    else record {
      code = some (or_else body.code (codes "unknown_error"));
      message = or_else body.message (codes "Unknown API error");
      status_code = some status;
      retry_after_ms = none;
    }

-- The body of the `try`: a value (`none` for `undefined`) or an error.
pub data Tried : Type 0 where
  value : Option Text → Tried
  error : RequestError → Tried

unfoldable pub try_once : Fetched → Tried
try_once (fetch_threw code message) =
    error (record { code = code; message = message; status_code = none; retry_after_ms = none })
try_once (answered r) =
    if leb 200 r.status && ltb r.status 300
    then if r.status == 204 then value none else elim r.json [
      | some body ↦ value (some body)
      | none ↦ error (record {
        code = none;
        message = codes "invalid JSON";
        status_code = none;
        retry_after_ms = none;
      })
    ]
    else error (parse_api_error r.status r.error_body)

-- Whether an error is not retried: a status of the 400s but 429.
unfoldable pub is_final : RequestError → Bool
is_final e = elim e.status_code [
  | none ↦ false
  | some status ↦ leb 400 status && ltb status 500 && not (status == 429)
]

unfoldable pub backoff_ms : ℕ → ℕ
backoff_ms attempt = min (1000 * 2 ^ attempt) 8000

-- What is thrown after the last attempt: an error without a code becomes a network error.
unfoldable pub after_retries : RequestError → RequestError
after_retries e = if is_some e.code then e else record {
  code = some (codes "network_error");
  message = e.message;
  status_code = none;
  retry_after_ms = none;
}

-- What a request comes to: the value or error, how often it fetched, and how long it waited between.
pub record Run : Type 0 where
  pub outcome : Tried
  pub fetches : ℕ
  pub waits : List ℕ

-- The loop from `attempt` on, with `left` retries left: `attempt + left` is `maxRetries`.
unfoldable pub request_from : (ℕ → Fetched) → ℕ → ℕ → Run
request_from fetch attempt zero = elim (try_once (fetch attempt)) [
  | value v ↦ record { outcome = value v; fetches = 1; waits = [] }
  | error e ↦ record {
    outcome = error (if is_final e then e else after_retries e);
    fetches = 1;
    waits = [];
  }
]
request_from fetch attempt (suc left) =
    let rest = request_from fetch (suc attempt) left in
    elim (try_once (fetch attempt)) [
      | value v ↦ record { outcome = value v; fetches = 1; waits = [] }
      | error e ↦
          if is_final e then record { outcome = error e; fetches = 1; waits = [] } else record {
            outcome = rest.outcome;
            fetches = suc rest.fetches;
            waits = backoff_ms attempt ∷ rest.waits;
          }
    ]

unfoldable pub request : ℕ → (ℕ → Fetched) → Run
request max_retries fetch = request_from fetch 0 max_retries
