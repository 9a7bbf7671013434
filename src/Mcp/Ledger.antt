-- ===== src/Mcp/Ledger.antt =====
-- packages/mcp-server/src/ledger/Ledger.ts: what the two ledgers store and answer. Amounts are the
-- numbers whose decimal texts the source stores; times are milliseconds of `Date.now()`.
pub mod Memory
pub mod Sqlite
pub mod Agreement
pub mod Limits
use res_ex_machina.Common.{ℕ, ◌+◌, Bool, true, false, List, [], ◌∷◌, Option, Text}

pub record SpendingRecord : Type 0 where
  pub id : Text
  pub tx_hash : Text
  pub amount_wei : ℕ
  pub gas_wei : ℕ
  pub timestamp : ℕ

pub record FailedAttemptRecord : Type 0 where
  pub id : Text
  pub reason : Text
  pub timestamp : ℕ

pub record LedgerStats : Type 0 where
  pub total_spent_wei : ℕ
  pub records_count : ℕ

-- Why a transaction is not allowed, with the numbers that the source puts in the message.
pub data Reason : Type 0 where
  fee_exceeds gas_exceeds total_exceeds records_reached : ℕ → ℕ → Reason
  batch_records_exceed spend_exceeds batch_spend_exceeds : ℕ → ℕ → ℕ → Reason

pub data GuardrailResult : Type 0 where
  allowed : GuardrailResult
  blocked : Reason → GuardrailResult

pub data BatchJobStatus : Type 0 where
  pending processing completed failed : BatchJobStatus

pub data BatchItemStatus : Type 0 where
  waiting success failure duplicate : BatchItemStatus

pub record BatchJob : Type 0 where
  pub batch_id : Text
  pub created_at : ℕ
  pub total_items : ℕ
  pub new_items : ℕ
  pub duplicate_items : ℕ
  pub status : BatchJobStatus
  pub estimated_cost_wei : ℕ
  pub actual_cost_wei : ℕ

pub record BatchItemRecord : Type 0 where
  pub batch_id : Text
  pub content_hash : Text
  pub record_id : Option Text
  pub fee_tx_hash : Option Text
  pub status : BatchItemStatus
  pub error_code : Option Text

pub record BatchJobResult : Type 0 where
  pub job : BatchJob
  pub items : List BatchItemRecord

pub data AuditEventType : Type 0 where
  confirmation_mode_change confirmation_mode_reset : AuditEventType

pub data ActorType : Type 0 where
  agent operator system : ActorType

pub record AuditEvent : Type 0 where
  pub event_id : Text
  pub event_type : AuditEventType
  pub actor_wallet : Option Text
  pub actor_type : ActorType
  pub previous_value : Option Text
  pub new_value : Text
  pub reason : Text
  pub request_id : Option Text
  pub created_at : ℕ

abbrev pub same_type : AuditEventType → AuditEventType → Bool
same_type confirmation_mode_change confirmation_mode_change = true
same_type confirmation_mode_reset confirmation_mode_reset = true
same_type a b = false

-- 24 * 60 * 60 * 1000
abbrev pub one_day : ℕ
one_day = 86400000

-- The loop that adds up amounts and gas.
unfoldable pub spent : List SpendingRecord → ℕ
spent [] = 0
spent (r ∷ rs) = r.amount_wei + r.gas_wei + spent rs
