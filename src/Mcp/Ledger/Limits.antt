-- ===== src/Mcp/Ledger/Limits.antt =====
-- What the guardrails let through, and how the daily window of spending moves with time.
use res_ex_machina.Common.{
  ℕ, ◌+◌, ◌-◌, ◌*◌, ◌≤◌, ◌<◌, ◌≡◌, ◌↔◌, Bool, List, [], ◌∷◌, ◌++◌, arith, leb, length, select,
  select-append, length-append,
}
use res_ex_machina.Mcp.Config.{EnvConfig}
use res_ex_machina.Mcp.Ledger.{SpendingRecord, allowed, one_day, spent}
use res_ex_machina.Mcp.Ledger.Sqlite.{
  SqliteLedger, get_daily_stats, check_guardrails, check_batch_guardrails,
}

-- A single transaction is allowed exactly when its fee, its gas and their sum are within the limits
-- for one transaction, fewer records than the daily limit were made in the last day, and the day's
-- spending with it stays within the daily limit.
pub check_guardrails_iff :
    (config : EnvConfig) (now fee gas : ℕ) (l : SqliteLedger)
    → let stats = get_daily_stats now l in
      (check_guardrails config now fee gas l ≡ allowed) ↔ (
        (fee ≤ config.max_rxm_fee_wei)
        × (gas ≤ config.max_gas_cost_wei)
        × (fee + gas ≤ config.max_total_tx_cost_wei)
        × (stats.records_count < config.max_records_per_day)
        × (stats.total_spent_wei + (fee + gas) ≤ config.max_spend_per_day_wei))
unfolding check_guardrails
check_guardrails_iff config now fee gas l = ground arith

-- A batch is allowed exactly when the fee and the gas of an item are within their limits, and the
-- day's records and spending with the whole batch stay within the daily limits. The limit on the
-- total cost of a transaction is not asked for.
pub check_batch_guardrails_iff :
    (config : EnvConfig) (now count fee gas : ℕ) (l : SqliteLedger)
    → let stats = get_daily_stats now l in
      (check_batch_guardrails config now count fee gas l ≡ allowed) ↔ (
        (fee ≤ config.max_rxm_fee_wei)
        × (gas ≤ config.max_gas_cost_wei)
        × (stats.records_count + count ≤ config.max_records_per_day)
        × (stats.total_spent_wei + (fee + gas) * count ≤ config.max_spend_per_day_wei))
unfolding check_batch_guardrails
check_batch_guardrails_iff config now count fee gas l = ground arith

abbrev pub recent : ℕ → SpendingRecord → Bool
recent now row = leb (now - one_day) row.timestamp

spent-append : (xs ys : List SpendingRecord) → spent (xs ++ ys) ≡ spent xs + spent ys
unfolding spent
spent-append [] ys = omega arith
spent-append (x ∷ xs) ys = omega (arith, spent-append xs ys)

-- The window only loses records as time goes by.
window_shrinks :
    (t t' : ℕ) (rows : List SpendingRecord)
    → t ≤ t'
    → (spent (select (recent t') rows) ≤ spent (select (recent t) rows))
      × (length (select (recent t') rows) ≤ length (select (recent t) rows))
unfolding spent
window_shrinks t t' [] h = ground arith
window_shrinks t t' (r ∷ rows) h = ground (arith, window_shrinks t t' rows h)

-- What a ledger of the day has spent and recorded is within the daily limits.
pub record IsWithin (config : EnvConfig) (now : ℕ) (l : SqliteLedger) : Type 0 where
  pub spending : (get_daily_stats now l).total_spent_wei ≤ config.max_spend_per_day_wei
  pub records : (get_daily_stats now l).records_count ≤ config.max_records_per_day

-- The statistics of the day only fall while nothing is recorded.
pub get_daily_stats-later :
    (t t' : ℕ) (l : SqliteLedger)
    → t ≤ t'
    → ((get_daily_stats t' l).total_spent_wei ≤ (get_daily_stats t l).total_spent_wei)
      × ((get_daily_stats t' l).records_count ≤ (get_daily_stats t l).records_count)
unfolding get_daily_stats
get_daily_stats-later t t' l h = window_shrinks t t' l.spending_log h

pub IsWithin-later :
    (config : EnvConfig) (t t' : ℕ) (l : SqliteLedger)
    → t ≤ t'
    → IsWithin config t l
    → IsWithin config t' l
IsWithin-later config t t' l h w = omega (arith, get_daily_stats-later t t' l h)

-- Another row adds at most its own cost, and one record, to the day's statistics.
pub get_daily_stats-append :
    (now : ℕ) (l : SqliteLedger) (row : SpendingRecord)
    → let stats = get_daily_stats now l in
      let after = get_daily_stats now (record l { spending_log = l.spending_log ++ row ∷ [] }) in
      (after.total_spent_wei ≤ stats.total_spent_wei + (row.amount_wei + row.gas_wei))
      × (after.records_count ≤ stats.records_count + 1)
unfolding get_daily_stats spent
get_daily_stats-append now l row =
    let one = row ∷ [] in
    ground (
      arith,
      select-append (recent now) l.spending_log one,
      spent-append (select (recent now) l.spending_log) (select (recent now) one),
      length-append (select (recent now) l.spending_log) (select (recent now) one),
    )
