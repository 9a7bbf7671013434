-- ===== src/Sdk/Http/Retries.antt =====
-- How often a request is sent, how long it waits, and when it returns.
use res_ex_machina.Common.{
  ℕ, zero, suc, ◌+◌, ◌*◌, ◌≤◌, ◌<◌, ◌≡◌, refl, ◌∙◌, ◌⊎◌, inl, inr, Bool, true, false, not, leb,
  List, [], ◌∷◌, Option, Text, arith, length, Bool-cases,
}
use res_ex_machina.Sdk.Http.{
  Fetched, RequestError, Tried, value, error, try_once, is_final, backoff_ms, after_retries,
  request_from, request,
}

abbrev pub total : List ℕ → ℕ
total [] = 0
total (w ∷ ws) = w + total ws

Tried-cases :
    (t : Tried) → ((v : Option Text) × (t ≡ value v)) ⊎ ((e : RequestError) × (t ≡ error e))
Tried-cases (value v) = inl (v, refl)
Tried-cases (error e) = inr (e, refl)

-- An attempt that is retried if any retry is left.
abbrev pub is_retried : Tried → Bool
is_retried (value v) = false
is_retried (error e) = not (is_final e)

backoff_ms-le : (n : ℕ) → backoff_ms n ≤ 8000
unfolding backoff_ms
backoff_ms-le n = omega arith

request_from-bounded :
    (fetch : ℕ → Fetched) (attempt left : ℕ)
    → let run = request_from fetch attempt left in
      (1 ≤ run.fetches)
      × (run.fetches ≤ left + 1)
      × (length run.waits + 1 ≡ run.fetches)
      × (total run.waits ≤ 8000 * left)
unfolding request_from
request_from-bounded fetch attempt zero = ground arith
request_from-bounded fetch attempt (suc left) =
    ground (arith, request_from-bounded fetch (suc attempt) left, backoff_ms-le attempt)

-- A request sends itself at least once and at most `maxRetries + 1` times, waits once between two
-- attempts, and waits for at most 8 seconds each time.
request_bounded :
    (max_retries : ℕ) (fetch : ℕ → Fetched)
    → let run = request max_retries fetch in
      (1 ≤ run.fetches)
      × (run.fetches ≤ max_retries + 1)
      × (length run.waits + 1 ≡ run.fetches)
      × (total run.waits ≤ 8000 * max_retries)
unfolding request
request_bounded max_retries fetch = request_from-bounded fetch 0 max_retries

stops_at_once :
    (fetch : ℕ → Fetched) (attempt left : ℕ)
    → is_retried (try_once (fetch attempt)) ≡ false
    → let run = request_from fetch attempt left in
      (run.outcome ≡ try_once (fetch attempt)) × (run.fetches ≡ 1)
unfolding request_from
stops_at_once fetch attempt zero h = elim (Tried-cases (try_once (fetch attempt))) [
  | inl (v, e) ↦ ground arith
  | inr (err, e) ↦ ground arith
]
stops_at_once fetch attempt (suc left) h = elim (Tried-cases (try_once (fetch attempt))) [
  | inl (v, e) ↦ ground arith
  | inr (err, e) ↦ ground arith
]

goes_on :
    (fetch : ℕ → Fetched) (attempt left : ℕ)
    → is_retried (try_once (fetch attempt)) ≡ true
    → let run = request_from fetch attempt (suc left) in
      let rest = request_from fetch (suc attempt) left in
      (run.outcome ≡ rest.outcome) × (run.fetches ≡ rest.fetches + 1)
unfolding request_from
goes_on fetch attempt left h = elim (Tried-cases (try_once (fetch attempt))) [
  | inl (v, e) ↦ absurd (ground arith)
  | inr (err, e) ↦ ground arith
]

stops_here :
    (fetch : ℕ → Fetched) (attempt left j : ℕ)
    → attempt ≡ j
    → is_retried (try_once (fetch j)) ≡ false
    → let run = request_from fetch attempt left in
      (run.outcome ≡ try_once (fetch j)) × (run.fetches + attempt ≡ j + 1)
stops_here fetch attempt left j same last =
    let (outcome, once) = stops_at_once fetch attempt left (rw same last) in
    (rw (← same) outcome, omega (arith, once))

request_from-stops :
    (fetch : ℕ → Fetched) (attempt left j : ℕ)
    → attempt ≤ j
    → j ≤ attempt + left
    → ((i : ℕ) → attempt ≤ i → i < j → is_retried (try_once (fetch i)) ≡ true)
    → is_retried (try_once (fetch j)) ≡ false
    → let run = request_from fetch attempt left in
      (run.outcome ≡ try_once (fetch j)) × (run.fetches + attempt ≡ j + 1)
request_from-stops fetch attempt zero j h h' earlier last =
    stops_here fetch attempt zero j (omega arith) last
request_from-stops fetch attempt (suc n) j h h' earlier last = elim (Bool-cases (leb j attempt)) [
  | inl here ↦ stops_here fetch attempt (suc n) j (ground arith) last
  | inr later ↦
      let (outcome, more) =
        goes_on fetch attempt n (earlier attempt (omega arith) (ground arith)) in
      let (outcome', count) =
        request_from-stops fetch (suc attempt) n j (ground arith) (omega arith)
          (λ i a b. earlier i (omega arith) b) last in
      (outcome ∙ outcome', omega (arith, more, count))
]

-- The first attempt that is not retried decides: if it is within the attempts that a request has,
-- the request stops there, with the value of this attempt or with its final error. So a server that
-- answers in time is heard.
pub request_stops :
    (max_retries j : ℕ) (fetch : ℕ → Fetched)
    → j ≤ max_retries
    → ((i : ℕ) → i < j → is_retried (try_once (fetch i)) ≡ true)
    → is_retried (try_once (fetch j)) ≡ false
    → let run = request max_retries fetch in
      (run.outcome ≡ try_once (fetch j)) × (run.fetches ≡ j + 1)
unfolding request
request_stops max_retries j fetch h earlier last =
    let (outcome, count) =
      request_from-stops fetch 0 max_retries j (omega arith) (omega arith) (λ i a b. earlier i b)
        last in
    (outcome, omega (arith, count))

gives_up_from :
    (fetch : ℕ → Fetched) (attempt left last : ℕ)
    → attempt + left ≡ last
    → ((i : ℕ) → i ≤ last → is_retried (try_once (fetch i)) ≡ true)
    → let run = request_from fetch attempt left in
      (e : RequestError) × (try_once (fetch last) ≡ error e)
      × (run.outcome ≡ error (after_retries e))
      × (run.fetches ≡ left + 1)
unfolding request_from
gives_up_from fetch attempt zero last h all =
    let same : attempt ≡ last = omega arith in
    let retried = all last (omega arith) in
    elim (Tried-cases (try_once (fetch last))) [
      | inl (v, e) ↦ absurd (ground arith)
      | inr (err, e) ↦ (err, e, rw same (ground arith), rw same (ground arith))
    ]
gives_up_from fetch attempt (suc left) last h all =
    let (outcome, more) = goes_on fetch attempt left (all attempt (omega arith)) in
    let (err, e, outcome', count) = gives_up_from fetch (suc attempt) left last (omega arith) all in
    (err, e, outcome ∙ outcome', omega (arith, more, count))

-- If every attempt is one that is retried, a request sends itself `maxRetries + 1` times and then
-- throws the error of the last attempt, as a network error if it has no code.
pub request_gives_up :
    (max_retries : ℕ) (fetch : ℕ → Fetched)
    → ((i : ℕ) → i ≤ max_retries → is_retried (try_once (fetch i)) ≡ true)
    → let run = request max_retries fetch in
      (e : RequestError) × (try_once (fetch max_retries) ≡ error e)
      × (run.outcome ≡ error (after_retries e))
      × (run.fetches ≡ max_retries + 1)
unfolding request
request_gives_up max_retries fetch all =
    gives_up_from fetch 0 max_retries max_retries (omega arith) all
