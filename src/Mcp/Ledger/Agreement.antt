-- ===== src/Mcp/Ledger/Agreement.antt =====
-- The two ledgers answer alike after the same calls.
use res_ex_machina.Common.{
  Bool, ℕ, ◌≡◌, refl, List, [], ◌∷◌, Option, none, some, Text, arith, Option-cases, inl, inr,
}
use res_ex_machina.Mcp.Config.{EnvConfig}
use res_ex_machina.Mcp.Ledger.{BatchJobStatus, BatchItemRecord, AuditEvent}
use res_ex_machina.Mcp.Ledger.Memory
use res_ex_machina.Mcp.Ledger.Memory.{MemoryLedger}
use res_ex_machina.Mcp.Ledger.Sqlite
use res_ex_machina.Mcp.Ledger.Sqlite.{SqliteLedger}

-- The calls that change a ledger: those on single transactions, on batches and on the audit trail.
pub data Call : Type 0 where
  transaction : ℕ → Text → Text → ℕ → ℕ → Call
  failed_attempt : ℕ → Text → Text → Call
  batch_job : ℕ → Text → ℕ → ℕ → ℕ → ℕ → Call
  job_status : Text → BatchJobStatus → Option ℕ → Call
  batch_item : BatchItemRecord → Call
  audit : ℕ → AuditEvent → Call

unfoldable pub call_memory : Call → MemoryLedger → MemoryLedger
call_memory (transaction now id tx amount gas) l = Memory.record_transaction now id tx amount gas l
call_memory (failed_attempt now id reason) l = Memory.record_failed_attempt now id reason l
call_memory (batch_job now id total new duplicates cost) l =
    Memory.create_batch_job now id total new duplicates cost l
call_memory (job_status id status cost) l = Memory.update_batch_job_status id status cost l
call_memory (batch_item item) l = Memory.add_batch_item item l
call_memory (audit now event) l = Memory.record_audit_event now event l

-- `foreign_keys` is that of `add_batch_item`.
unfoldable pub call_sqlite : Bool → Call → SqliteLedger → Option SqliteLedger
call_sqlite foreign_keys (transaction now id tx amount gas) l =
    Sqlite.record_transaction now id tx amount gas l
call_sqlite foreign_keys (failed_attempt now id reason) l =
    Sqlite.record_failed_attempt now id reason l
call_sqlite foreign_keys (batch_job now id total new duplicates cost) l =
    Sqlite.create_batch_job now id total new duplicates cost l
call_sqlite foreign_keys (job_status id status cost) l =
    some (Sqlite.update_batch_job_status id status cost l)
call_sqlite foreign_keys (batch_item item) l = Sqlite.add_batch_item foreign_keys item l
call_sqlite foreign_keys (audit now event) l = Sqlite.record_audit_event now event l

unfoldable pub run_memory : List Call → MemoryLedger → MemoryLedger
run_memory [] l = l
run_memory (c ∷ cs) l = run_memory cs (call_memory c l)

-- `none` if some call throws.
unfoldable pub run_sqlite : Bool → List Call → SqliteLedger → Option SqliteLedger
run_sqlite foreign_keys [] l = some l
run_sqlite foreign_keys (c ∷ cs) l = elim (call_sqlite foreign_keys c l) [
  | none ↦ none
  | some l' ↦ run_sqlite foreign_keys cs l'
]

abbrev SameRows : MemoryLedger → SqliteLedger → Type 0
SameRows m s =
    (m.spending_logs ≡ s.spending_log)
    × (m.failed_attempts ≡ s.failed_attempts)
    × (m.audit_events ≡ s.audit_events)

call-SameRows :
    (foreign_keys : Bool) (c : Call) (m : MemoryLedger) (s s' : SqliteLedger)
    → SameRows m s
    → call_sqlite foreign_keys c s ≡ some s'
    → SameRows (call_memory c m) s'
unfolding call_memory call_sqlite Memory.record_transaction Memory.record_failed_attempt
    Sqlite.record_transaction Sqlite.record_failed_attempt Memory.create_batch_job
    Memory.update_batch_job_status Memory.add_batch_item Memory.record_audit_event
    Sqlite.create_batch_job Sqlite.update_batch_job_status Sqlite.add_batch_item
    Sqlite.record_audit_event
call-SameRows fk (transaction now id tx amount gas) m s s' h e = ground arith
call-SameRows fk (failed_attempt now id reason) m s s' h e = ground arith
call-SameRows fk (batch_job now id total new duplicates cost) m s s' h e = ground arith
call-SameRows fk (job_status id status cost) m s s' h e = ground arith
call-SameRows fk (batch_item item) m s s' h e = ground arith
call-SameRows fk (audit now event) m s s' h e = ground arith

run-SameRows :
    (fk : Bool) (cs : List Call) (m : MemoryLedger) (s s' : SqliteLedger)
    → SameRows m s
    → run_sqlite fk cs s ≡ some s'
    → SameRows (run_memory cs m) s'
unfolding run_memory run_sqlite
run-SameRows fk [] m s s' h e = ground arith
run-SameRows fk (c ∷ cs) m s s' h e = elim (Option-cases (call_sqlite fk c s)) [
  | inl thrown ↦ absurd (ground arith)
  | inr (t, made) ↦
      run-SameRows fk cs (call_memory c m) t s' (call-SameRows fk c m s t h made) (ground arith)
]

-- After any calls that change a ledger and that SQLite accepts, whether or not it checks foreign
-- keys, on ledgers that start empty, the two ledgers report the same daily statistics, decide alike
-- on every single transaction and on every batch, and hold the same audit events.
pub ledgers_agree :
    (foreign_keys : Bool) (cs : List Call) (s : SqliteLedger) (config : EnvConfig)
    (now count fee gas : ℕ)
    → run_sqlite foreign_keys cs Sqlite.created ≡ some s
    → let m = run_memory cs Memory.empty in
      (Memory.get_daily_stats now m ≡ Sqlite.get_daily_stats now s)
      × (Memory.check_guardrails config now fee gas m
          ≡ Sqlite.check_guardrails config now fee gas s)
      × (Memory.check_batch_guardrails config now count fee gas m
          ≡ Sqlite.check_batch_guardrails config now count fee gas s)
      × (m.audit_events ≡ s.audit_events)
unfolding Memory.check_guardrails Memory.check_batch_guardrails Memory.get_daily_stats Memory.empty
    Sqlite.check_guardrails Sqlite.check_batch_guardrails Sqlite.get_daily_stats Sqlite.created
ledgers_agree foreign_keys cs s config now count fee gas e =
    let (same, _, trail) =
      run-SameRows foreign_keys cs Memory.empty Sqlite.created s (refl, refl, refl) e in
    (rw same, rw same, rw same, trail)
