-- ===== src/Mcp/Write/Requests.antt =====
-- Runs of requests: the daily limits and the bound on the store along them, and what confirmations
-- do to one another.
use res_ex_machina.Common.{
  ℕ, ◌≤◌, ◌≡◌, ◌≢◌, ◌∙◌, ◌⊎◌, inl, inr, List, [], ◌∷◌, none, Text, arith, text_eq_iff, text_eq_refl,
  length, length-select, Option-cases, map_get, map_delete, map_get-map_delete, length-map_set,
  length-map_delete,
}
use res_ex_machina.Mcp.Ledger.Sqlite.{record_failed_attempt}
use res_ex_machina.Mcp.Ledger.Limits.{IsWithin, IsWithin-later}
use res_ex_machina.Mcp.Write.{
  Env, Args, ConfirmationRequest, State, invalid_confirmation, failed, Request, prepares, confirms,
  collects, cleared, max_pending_confirmations, collect_expired, prepare, begin_confirm,
  finish_confirm, confirm, step, run,
}
use res_ex_machina.Mcp.Write.Spending.{Begun-cases, IsWithin-same_log, confirm-IsWithin}

-- The requests follow one another in time, none before `t`, none after `u`.
abbrev pub InOrder : ℕ → List Request → ℕ → Type 0
InOrder t [] u = t ≤ u
InOrder t (prepares now a id args ∷ rs) u = (t ≤ now) × InOrder now rs u
InOrder t (confirms now later id ∷ rs) u = (t ≤ now) × (now ≤ later) × InOrder later rs u
InOrder t (collects now ∷ rs) u = (t ≤ now) × InOrder now rs u

module _ (env : Env) where
  open env use {config}

  pub prepare-same_log :
      (now : ℕ) (a id : Text) (args : Args) (s : State)
      → (prepare env now a id args s).0.ledger.spending_log ≡ s.ledger.spending_log
  unfolding prepare record_failed_attempt
  prepare-same_log now a id args s = ground arith

  -- From a ledger within the daily limits of the configuration, over any requests that follow one
  -- another in time and are handled one after the other, the spending and the records of the last
  -- day stay within those limits.
  pub run-IsWithin :
      (rs : List Request) (t u : ℕ) (s : State)
      → InOrder t rs u
      → IsWithin config t s.ledger
      → IsWithin config u (run env rs s).ledger
  unfolding run step collect_expired
  run-IsWithin [] t u s h w = IsWithin-later config t u s.ledger h w
  run-IsWithin (prepares now a id args ∷ rs) t u s (h, hs) w =
      let s' = (prepare env now a id args s).0 in
      run-IsWithin rs now u s' hs (
        IsWithin-same_log config now s.ledger s'.ledger (prepare-same_log now a id args s)
          (IsWithin-later config t now s.ledger h w))
  run-IsWithin (confirms now later id ∷ rs) t u s (h, h', hs) w =
      run-IsWithin rs later u (confirm env now later id s).0 hs
        (confirm-IsWithin env now later id s h' (IsWithin-later config t now s.ledger h w))
  run-IsWithin (collects now ∷ rs) t u s (h, hs) w =
      run-IsWithin rs now u (collect_expired now s) hs (IsWithin-later config t now s.ledger h w)

  finish_confirm-same_pending :
      (later : ℕ) (req : ConfirmationRequest) (s : State)
      → (finish_confirm env later req s).0.pending ≡ s.pending
  unfolding finish_confirm
  finish_confirm-same_pending later req s = ground arith

  -- What is pending once a confirmation has begun: the confirmed entry is gone.
  begin_confirm-pending :
      (now : ℕ) (id : Text) (s : State)
      → ((map_get id s.pending ≡ none) × ((begin_confirm env now id s).0.pending ≡ s.pending))
        ⊎ ((begin_confirm env now id s).0.pending ≡ map_delete id s.pending)
  unfolding begin_confirm
  begin_confirm-pending now id s = elim (Option-cases (map_get id s.pending)) [
    | inl absent ↦ inl (absent, rw (absent, begin_confirm))
    | inr (req, found) ↦ inr (ground arith)
  ]

  confirm-same_pending :
      (now later : ℕ) (id : Text) (s : State)
      → (confirm env now later id s).0.pending ≡ (begin_confirm env now id s).0.pending
  unfolding confirm
  confirm-same_pending now later id s = elim (Begun-cases (begin_confirm env now id s).1) [
    | inl (failure, e) ↦ rw (e, confirm)
    | inr (req, e) ↦
        rw (e, confirm) (finish_confirm-same_pending later req (begin_confirm env now id s).0)
  ]

  confirm-absent :
      (now later : ℕ) (id : Text) (s : State)
      → map_get id (confirm env now later id s).0.pending ≡ none
  confirm-absent now later id s =
      let same = confirm-same_pending now later id s in
      elim (begin_confirm-pending now id s) [
        | inl (absent, kept) ↦ rw (same, kept) absent
        | inr gone ↦ rw (same, gone) (map_get-map_delete id id s.pending ∙ rw (text_eq_refl id))
      ]

  confirm_of_absent :
      (now later : ℕ) (id : Text) (s : State)
      → map_get id s.pending ≡ none
      → confirm env now later id s ≡ (s, failed invalid_confirmation)
  unfolding confirm begin_confirm
  confirm_of_absent now later id s h = ground arith

  -- A confirmation counts once: whatever its outcome, the same identifier is invalid afterwards and
  -- asking again changes nothing.
  pub confirm_once :
      (now later now' later' : ℕ) (id : Text) (s : State)
      → let s' = (confirm env now later id s).0 in
        confirm env now' later' id s' ≡ (s', failed invalid_confirmation)
  confirm_once now later now' later' id s =
      confirm_of_absent now' later' id (confirm env now later id s).0
        (confirm-absent now later id s)

  prepare-pending_bounded :
      (now : ℕ) (a id : Text) (args : Args) (s : State)
      → length s.pending ≤ max_pending_confirmations
      → length (prepare env now a id args s).0.pending ≤ max_pending_confirmations
  unfolding prepare
  prepare-pending_bounded now a id args s h = grind (arith, length-map_set {0})

  step-pending_bounded :
      (r : Request) (s : State)
      → length s.pending ≤ max_pending_confirmations
      → length (step env r s).pending ≤ max_pending_confirmations
  unfolding step
  step-pending_bounded (prepares now a id args) s h = prepare-pending_bounded now a id args s h
  step-pending_bounded (confirms now later id) s h =
      rw (confirm-same_pending now later id s) (elim (begin_confirm-pending now id s) [
        | inl (absent, kept) ↦ rw kept h
        | inr gone ↦ rw gone (omega (arith, length-map_delete id s.pending))
      ])
  step-pending_bounded (collects now) s h =
      unfold collect_expired in omega (arith, length-select {0})

  -- A store of pending confirmations that holds at most MAX_PENDING_CONFIRMATIONS entries never
  -- holds more, over any requests.
  pub run-pending_bounded :
      (rs : List Request) (s : State)
      → length s.pending ≤ max_pending_confirmations
      → length (run env rs s).pending ≤ max_pending_confirmations
  unfolding run
  run-pending_bounded [] s h = h
  run-pending_bounded (r ∷ rs) s h =
      run-pending_bounded rs (step env r s) (step-pending_bounded r s h)

  -- The check of a confirmation reserves nothing: once a confirmation has passed it, and before it
  -- has been entered in the ledger, a confirmation of another identifier that begins at any time is
  -- decided as if the first were not there.
  pub begin_confirm_reserves_nothing :
      (now later : ℕ) (a b : Text) (s : State) (req : ConfirmationRequest)
      → a ≢ b
      → (begin_confirm env now a s).1 ≡ cleared req
      → (begin_confirm env later b (begin_confirm env now a s).0).1
        ≡ (begin_confirm env later b s).1
  unfolding begin_confirm
  begin_confirm_reserves_nothing now later a b s req ne h =
      ground (arith, map_get-map_delete a b s.pending, text_eq_iff a b)
