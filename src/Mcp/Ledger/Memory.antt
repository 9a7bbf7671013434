-- ===== src/Mcp/Ledger/Memory.antt =====
-- packages/mcp-server/src/ledger/MemoryLedger.ts. `now` is `Date.now()` at the call.
use res_ex_machina.Common.{
  ℕ, ◌+◌, ◌-◌, ◌*◌, List, [], ◌∷◌, ◌++◌, reverse, Option, none, some, Text, leb, ltb, ◌==◌, text_eq,
  if◌then◌else◌, length, drop, select, or_else, map_get, map_set,
}
use res_ex_machina.Mcp.Config.{EnvConfig}
use res_ex_machina.Mcp.Ledger.{
  SpendingRecord, FailedAttemptRecord, LedgerStats, fee_exceeds, gas_exceeds, total_exceeds,
  records_reached, batch_records_exceed, spend_exceeds, batch_spend_exceeds, GuardrailResult,
  allowed, blocked, BatchJobStatus, pending, BatchJob, BatchItemRecord, BatchJobResult,
  AuditEventType, AuditEvent, same_type, one_day, spent,
}

pub record MemoryLedger : Type 0 where
  pub spending_logs : List SpendingRecord
  pub failed_attempts : List FailedAttemptRecord
  pub batch_jobs : List (Text × BatchJob)
  pub batch_items : List (Text × List BatchItemRecord)
  pub audit_events : List AuditEvent

unfoldable pub empty : MemoryLedger
empty = record {
  spending_logs = [];
  failed_attempts = [];
  batch_jobs = [];
  batch_items = [];
  audit_events = [];
}

unfoldable pub record_transaction : ℕ → Text → Text → ℕ → ℕ → MemoryLedger → MemoryLedger
record_transaction now record_id tx_hash amount_wei gas_wei l = record l {
  spending_logs =
      l.spending_logs
      ++ record {
        id = record_id;
        tx_hash = tx_hash;
        amount_wei = amount_wei;
        gas_wei = gas_wei;
        timestamp = now;
      }
        ∷ [];
}

unfoldable pub record_failed_attempt : ℕ → Text → Text → MemoryLedger → MemoryLedger
record_failed_attempt now record_id reason l = record l {
  failed_attempts =
      l.failed_attempts ++ record { id = record_id; reason = reason; timestamp = now } ∷ [];
}

unfoldable pub get_daily_stats : ℕ → MemoryLedger → LedgerStats
get_daily_stats now l =
    let records = select (λ log. leb (now - one_day) log.timestamp) l.spending_logs in
    record { total_spent_wei = spent records; records_count = length records }

unfoldable pub check_guardrails : EnvConfig → ℕ → ℕ → ℕ → MemoryLedger → GuardrailResult
unfolding get_daily_stats
check_guardrails config now fee gas l =
    let total = fee + gas in
    let stats = get_daily_stats now l in
    let new_total = stats.total_spent_wei + total in
    if ltb config.max_rxm_fee_wei fee
    then blocked (fee_exceeds fee config.max_rxm_fee_wei)
    else if ltb config.max_gas_cost_wei gas
    then blocked (gas_exceeds gas config.max_gas_cost_wei)
    else if ltb config.max_total_tx_cost_wei total
    then blocked (total_exceeds total config.max_total_tx_cost_wei)
    else if leb config.max_records_per_day stats.records_count
    then blocked (records_reached stats.records_count config.max_records_per_day)
    else if ltb config.max_spend_per_day_wei new_total
    then blocked (spend_exceeds stats.total_spent_wei new_total config.max_spend_per_day_wei)
    else allowed

unfoldable pub check_batch_guardrails : EnvConfig → ℕ → ℕ → ℕ → ℕ → MemoryLedger → GuardrailResult
unfolding get_daily_stats
check_batch_guardrails config now item_count fee gas l =
    let total = (fee + gas) * item_count in
    let stats = get_daily_stats now l in
    let new_total = stats.total_spent_wei + total in
    if ltb config.max_rxm_fee_wei fee
    then blocked (fee_exceeds fee config.max_rxm_fee_wei)
    else if ltb config.max_gas_cost_wei gas
    then blocked (gas_exceeds gas config.max_gas_cost_wei)
    else if ltb config.max_records_per_day (stats.records_count + item_count)
    then blocked (batch_records_exceed item_count stats.records_count config.max_records_per_day)
    else if ltb config.max_spend_per_day_wei new_total
    then blocked (batch_spend_exceeds stats.total_spent_wei total config.max_spend_per_day_wei)
    else allowed

unfoldable pub create_batch_job : ℕ → Text → ℕ → ℕ → ℕ → ℕ → MemoryLedger → MemoryLedger
create_batch_job now batch_id total_items new_items duplicate_items estimated_cost_wei l =
    record l {
      batch_jobs = map_set batch_id job l.batch_jobs;
      batch_items = map_set batch_id [] l.batch_items;
    }
  where
    job : BatchJob
    job = record {
      batch_id = batch_id;
      created_at = now;
      total_items = total_items;
      new_items = new_items;
      duplicate_items = duplicate_items;
      status = pending;
      estimated_cost_wei = estimated_cost_wei;
      actual_cost_wei = 0;
    }

-- The new status, and the new cost where one is given.
abbrev pub with_status : BatchJobStatus → Option ℕ → BatchJob → BatchJob
with_status status actual_cost_wei job = record job {
  status = status;
  actual_cost_wei = or_else actual_cost_wei job.actual_cost_wei;
}

unfoldable pub update_batch_job_status :
    Text → BatchJobStatus → Option ℕ → MemoryLedger → MemoryLedger
update_batch_job_status batch_id status actual_cost_wei l = elim (map_get batch_id l.batch_jobs) [
  | none ↦ l
  | some job ↦ record l {
    batch_jobs = map_set batch_id (with_status status actual_cost_wei job) l.batch_jobs;
  }
]

-- An item with the same content hash is replaced where it stands, any other comes last.
unfoldable pub put_item : BatchItemRecord → List BatchItemRecord → List BatchItemRecord
put_item item [] = item ∷ []
put_item item (i ∷ items) =
    let rest = put_item item items in
    if text_eq i.content_hash item.content_hash then item ∷ items else i ∷ rest

unfoldable pub add_batch_item : BatchItemRecord → MemoryLedger → MemoryLedger
unfolding put_item
add_batch_item item l =
    let items = or_else (map_get item.batch_id l.batch_items) [] in
    record l { batch_items = map_set item.batch_id (put_item item items) l.batch_items }

unfoldable pub get_batch_job : Text → MemoryLedger → Option BatchJobResult
get_batch_job batch_id l = elim (map_get batch_id l.batch_jobs) [
  | none ↦ none
  | some job ↦ some (record { job = job; items = or_else (map_get batch_id l.batch_items) [] })
]

unfoldable pub record_audit_event : ℕ → AuditEvent → MemoryLedger → MemoryLedger
record_audit_event now event l = record l {
  audit_events = l.audit_events ++ record event { created_at = now } ∷ [];
}

abbrev pub of_type : Option AuditEventType → List AuditEvent → List AuditEvent
of_type none events = events
of_type (some t) events = select (λ e. same_type e.event_type t) events

-- `slice(-limit)`: for a limit of 0, `-0` is 0 and the slice is the whole list.
abbrev pub last_of : ℕ → List AuditEvent → List AuditEvent
last_of limit events = if limit == 0 then events else drop (length events - limit) events

unfoldable pub get_audit_events : Option AuditEventType → ℕ → MemoryLedger → List AuditEvent
get_audit_events event_type limit l = reverse (last_of limit (of_type event_type l.audit_events))
