-- ===== src/Mcp/Ledger/Sqlite.antt =====
-- packages/mcp-server/src/ledger/SqliteLedger.ts. A table is the list of its rows in the order of
-- insertion, each statement does what SQL gives it to do, and `none` is a statement that throws on
-- a constraint of `init`. `now` is `Date.now()` at the call.
use res_ex_machina.Common.{
  ℕ, ◌+◌, ◌-◌, ◌*◌, Bool, not, ◌&&◌, List, [], ◌∷◌, ◌++◌, map, Option, none, some, Text, leb, ltb,
  text_eq, if◌then◌else◌, length, take, select, any_of, find_first,
}
use res_ex_machina.Mcp.Config.{EnvConfig}
use res_ex_machina.Mcp.Ledger.{
  SpendingRecord, FailedAttemptRecord, LedgerStats, fee_exceeds, gas_exceeds, total_exceeds,
  records_reached, batch_records_exceed, spend_exceeds, batch_spend_exceeds, GuardrailResult,
  allowed, blocked, BatchJobStatus, pending, BatchJob, BatchItemRecord, BatchJobResult,
  AuditEventType, AuditEvent, one_day, spent,
}
use res_ex_machina.Mcp.Ledger.Memory.{with_status, of_type}

pub record SqliteLedger : Type 0 where
  pub spending_log : List SpendingRecord
  pub failed_attempts : List FailedAttemptRecord
  pub batch_jobs : List BatchJob
  pub batch_items : List BatchItemRecord
  pub audit_events : List AuditEvent

unfoldable pub created : SqliteLedger
created = record {
  spending_log = [];
  failed_attempts = [];
  batch_jobs = [];
  batch_items = [];
  audit_events = [];
}

unfoldable pub record_transaction : ℕ → Text → Text → ℕ → ℕ → SqliteLedger → Option SqliteLedger
record_transaction now record_id tx_hash amount_wei gas_wei l =
    if any_of (λ row. text_eq row.id record_id) l.spending_log
    then none
    else some (record l { spending_log = l.spending_log ++ row ∷ [] })
  where
    row : SpendingRecord
    row = record {
      id = record_id;
      tx_hash = tx_hash;
      amount_wei = amount_wei;
      gas_wei = gas_wei;
      timestamp = now;
    }

unfoldable pub record_failed_attempt : ℕ → Text → Text → SqliteLedger → Option SqliteLedger
record_failed_attempt now record_id reason l =
    if any_of (λ row. text_eq row.id record_id) l.failed_attempts
    then none
    else some (record l {
      failed_attempts =
          l.failed_attempts ++ record { id = record_id; reason = reason; timestamp = now } ∷ [];
    })

unfoldable pub get_daily_stats : ℕ → SqliteLedger → LedgerStats
get_daily_stats now l =
    let records = select (λ row. leb (now - one_day) row.timestamp) l.spending_log in
    record { total_spent_wei = spent records; records_count = length records }

unfoldable pub check_guardrails : EnvConfig → ℕ → ℕ → ℕ → SqliteLedger → GuardrailResult
unfolding get_daily_stats
check_guardrails config now fee gas l =
    let total = fee + gas in
    let stats = get_daily_stats now l in
    let new_total = stats.total_spent_wei + total in
    if ltb config.max_rxm_fee_wei fee
    then blocked (fee_exceeds fee config.max_rxm_fee_wei)
    else if ltb config.max_gas_cost_wei gas
    then blocked (gas_exceeds gas config.max_gas_cost_wei)
    else if ltb config.max_total_tx_cost_wei total
    then blocked (total_exceeds total config.max_total_tx_cost_wei)
    else if leb config.max_records_per_day stats.records_count
    then blocked (records_reached stats.records_count config.max_records_per_day)
    else if ltb config.max_spend_per_day_wei new_total
    then blocked (spend_exceeds stats.total_spent_wei new_total config.max_spend_per_day_wei)
    else allowed

unfoldable pub check_batch_guardrails : EnvConfig → ℕ → ℕ → ℕ → ℕ → SqliteLedger → GuardrailResult
unfolding get_daily_stats
check_batch_guardrails config now item_count fee gas l =
    let total = (fee + gas) * item_count in
    let stats = get_daily_stats now l in
    let new_total = stats.total_spent_wei + total in
    if ltb config.max_rxm_fee_wei fee
    then blocked (fee_exceeds fee config.max_rxm_fee_wei)
    else if ltb config.max_gas_cost_wei gas
    then blocked (gas_exceeds gas config.max_gas_cost_wei)
    else if ltb config.max_records_per_day (stats.records_count + item_count)
    then blocked (batch_records_exceed item_count stats.records_count config.max_records_per_day)
    else if ltb config.max_spend_per_day_wei new_total
    then blocked (batch_spend_exceeds stats.total_spent_wei total config.max_spend_per_day_wei)
    else allowed

unfoldable pub create_batch_job : ℕ → Text → ℕ → ℕ → ℕ → ℕ → SqliteLedger → Option SqliteLedger
create_batch_job now batch_id total_items new_items duplicate_items estimated_cost_wei l =
    if any_of (λ (row : BatchJob). text_eq row.batch_id batch_id) l.batch_jobs
    then none
    else some (record l { batch_jobs = l.batch_jobs ++ job ∷ [] })
  where
    job : BatchJob
    job = record {
      batch_id = batch_id;
      created_at = now;
      total_items = total_items;
      new_items = new_items;
      duplicate_items = duplicate_items;
      status = pending;
      estimated_cost_wei = estimated_cost_wei;
      actual_cost_wei = 0;
    }

unfoldable pub update_batch_job_status :
    Text → BatchJobStatus → Option ℕ → SqliteLedger → SqliteLedger
update_batch_job_status batch_id status actual_cost_wei l = record l {
  batch_jobs =
      map
        (λ (row : BatchJob).
          if text_eq row.batch_id batch_id then with_status status actual_cost_wei row else row)
        l.batch_jobs;
}

abbrev pub same_item : BatchItemRecord → BatchItemRecord → Bool
same_item a b = text_eq a.batch_id b.batch_id && text_eq a.content_hash b.content_hash

-- `INSERT OR REPLACE`: the row with the same key goes, and the new one comes last. `foreign_keys`
-- says whether the driver checks the reference to `batch_jobs`.
unfoldable pub add_batch_item : Bool → BatchItemRecord → SqliteLedger → Option SqliteLedger
add_batch_item foreign_keys item l =
    if foreign_keys
      && not (any_of (λ (row : BatchJob). text_eq row.batch_id item.batch_id) l.batch_jobs)
    then none
    else some (record l {
      batch_items = select (λ row. not (same_item row item)) l.batch_items ++ item ∷ [];
    })

unfoldable pub get_batch_job : Text → SqliteLedger → Option BatchJobResult
get_batch_job batch_id l =
    elim (find_first (λ (row : BatchJob). text_eq row.batch_id batch_id) l.batch_jobs) [
      | none ↦ none
      | some job ↦ some (record {
        job = job;
        items = select (λ (row : BatchItemRecord). text_eq row.batch_id batch_id) l.batch_items;
      })
    ]

unfoldable pub record_audit_event : ℕ → AuditEvent → SqliteLedger → Option SqliteLedger
record_audit_event now event l =
    if any_of (λ (row : AuditEvent). text_eq row.event_id event.event_id) l.audit_events
    then none
    else some (record l { audit_events = l.audit_events ++ record event { created_at = now } ∷ [] })

-- `order_by` is the order in which the database returns the rows for `created_at DESC`.
unfoldable pub get_audit_events :
    (List AuditEvent → List AuditEvent) → Option AuditEventType → ℕ → SqliteLedger → List AuditEvent
get_audit_events order_by event_type limit l =
    take limit (order_by (of_type event_type l.audit_events))
