-- ===== src/Mcp/Write/Spending.antt =====
-- Spending stays within the daily limits, a confirmation counts once, and the store is bounded.
use res_ex_machina.Common.{
  ℕ, ◌≤◌, ◌≡◌, refl, ◌⊎◌, inl, inr, some, Text, codes, arith, Option-cases, Bool-cases, map_get,
}
use res_ex_machina.Mcp.Config.{EnvConfig}
use res_ex_machina.Mcp.Ledger.{Reason, SpendingRecord, GuardrailResult, allowed, blocked}
use res_ex_machina.Mcp.Ledger.Sqlite.{
  SqliteLedger, get_daily_stats, check_guardrails, record_transaction, record_failed_attempt,
}
use res_ex_machina.Mcp.Ledger.Limits.{
  IsWithin, IsWithin-later, check_guardrails_iff, get_daily_stats-append, get_daily_stats-later,
}
use res_ex_machina.Mcp.Write.{
  Env, mismatched, target_hash, ConfirmationRequest, State, Failure, Begun, refused, cleared,
  begin_confirm, finish_confirm, confirm,
}

GuardrailResult-cases : (g : GuardrailResult) → (g ≡ allowed) ⊎ ((r : Reason) × (g ≡ blocked r))
GuardrailResult-cases allowed = inl refl
GuardrailResult-cases (blocked r) = inr (r, refl)

pub Begun-cases :
    (b : Begun) → ((f : Failure) × (b ≡ refused f)) ⊎ ((r : ConfirmationRequest) × (b ≡ cleared r))
Begun-cases (refused f) = inl (f, refl)
Begun-cases (cleared r) = inr (r, refl)

-- A failed attempt leaves the spending log alone.
record_failed_attempt-same_log :
    (now : ℕ) (id reason : Text) (l l' : SqliteLedger)
    → record_failed_attempt now id reason l ≡ some l'
    → l'.spending_log ≡ l.spending_log
unfolding record_failed_attempt
record_failed_attempt-same_log now id reason l l' h = ground arith

pub IsWithin-same_log :
    (config : EnvConfig) (now : ℕ) (l l' : SqliteLedger)
    → l'.spending_log ≡ l.spending_log
    → IsWithin config now l
    → IsWithin config now l'
unfolding get_daily_stats
IsWithin-same_log config now l l' e w = record {
  spending = rw e w.spending;
  records = rw e w.records;
}

-- What the guardrails let through at `now` and is then recorded at a later time keeps the day
-- within its limits.
record_transaction-IsWithin :
    (config : EnvConfig) (now later : ℕ) (id tx : Text) (fee gas : ℕ) (l l' : SqliteLedger)
    → now ≤ later
    → check_guardrails config now fee gas l ≡ allowed
    → record_transaction later id tx fee gas l ≡ some l'
    → IsWithin config later l'
unfolding record_transaction
record_transaction-IsWithin config now later id tx fee gas l l' h ok e =
    let row : SpendingRecord = record {
      id = id;
      tx_hash = tx;
      amount_wei = fee;
      gas_wei = gas;
      timestamp = later;
    } in
    ground (
      arith,
      (check_guardrails_iff config now fee gas l).0 ok,
      get_daily_stats-later now later l h,
      get_daily_stats-append later l row,
    )

module _ (env : Env) where
  open env use {config}

  -- What `begin_confirm` does on each branch, as far as the ledger and the store are concerned.
  begin_confirm-same_log :
      (now : ℕ) (id : Text) (s : State)
      → (begin_confirm env now id s).0.ledger.spending_log ≡ s.ledger.spending_log
  unfolding begin_confirm record_failed_attempt
  begin_confirm-same_log now id s = ground arith

  pub begin_confirm-cleared :
      (now : ℕ) (id : Text) (s : State) (req : ConfirmationRequest)
      → (begin_confirm env now id s).1 ≡ cleared req
      → (map_get id s.pending ≡ some req)
        × (now ≤ req.expires_at)
        × (check_guardrails config now req.fee_wei req.gas_cost_wei s.ledger ≡ allowed)
        × ((begin_confirm env now id s).0.ledger ≡ s.ledger)
  unfolding begin_confirm
  begin_confirm-cleared now id s req h = ground arith

  -- The ledger afterwards is the one before, or has one more transaction.
  finish_confirm-ledger :
      (later : ℕ) (req : ConfirmationRequest) (s : State)
      → let l = (finish_confirm env later req s).0.ledger in
        (l ≡ s.ledger)
        ⊎ ((id : Text) × (record_transaction later id
                (codes "0x_rxm_sdk_internal")
                req.fee_wei
                req.gas_cost_wei
                s.ledger
              ≡ some l))
  unfolding finish_confirm
  finish_confirm-ledger later req s = elim (Bool-cases (mismatched env req.args)) [
    | inl bad ↦ inl (rw bad)
    | inr good ↦
        elim (Option-cases (env.record_hash (target_hash env req.args) req.args.model_id)) [
          | inl thrown ↦ inl (rw (good, thrown))
          | inr (id, made) ↦
              elim (Option-cases (
                record_transaction later id (codes "0x_rxm_sdk_internal") req.fee_wei
                  req.gas_cost_wei s.ledger)) [
                    | inl clash ↦ inl (rw (good, made, clash))
                    | inr (l, stored) ↦ inr (id, rw (good, made, stored))
                  ]
        ]
  ]

  -- A confirmation that nothing interrupts keeps the day's spending and records within the daily
  -- limits, whatever its outcome.
  pub confirm-IsWithin :
      (now later : ℕ) (id : Text) (s : State)
      → now ≤ later
      → IsWithin config now s.ledger
      → IsWithin config later (confirm env now later id s).0.ledger
  unfolding confirm
  confirm-IsWithin now later id s h w =
      let s' = (begin_confirm env now id s).0 in
      let w' : IsWithin config later s'.ledger =
        IsWithin-later config now later s'.ledger h
          (IsWithin-same_log config now s.ledger s'.ledger (begin_confirm-same_log now id s) w) in
      elim (Begun-cases (begin_confirm env now id s).1) [
        | inl (failure, e) ↦ rw (e, confirm) w'
        | inr (req, e) ↦ elim (finish_confirm-ledger later req s') [
          | inl same ↦ rw (e, confirm) (rw same w')
          | inr (record_id, made) ↦
              rw (e, confirm)
                (record_transaction-IsWithin config now later record_id _ req.fee_wei
                  req.gas_cost_wei s'.ledger _ h
                  (rw (begin_confirm-cleared now id s req e).3
                    (begin_confirm-cleared now id s req e).2)
                  made)
        ]
      ]
