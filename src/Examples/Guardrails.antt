-- ===== src/Examples/Guardrails.antt =====
-- Inputs for the theorems on the MCP server: packages/mcp-server/src.
use res_ex_machina.Common.{
  ◌≡◌, refl, true, false, List, [], ◌∷◌, ◌++◌, none, some, map_get, text_eq, arith, codes,
}
use res_ex_machina.Mcp.Config.{require, EnvConfig}
use res_ex_machina.Mcp.Ledger.{spent, completed}
use res_ex_machina.Mcp.Ledger.Memory
use res_ex_machina.Mcp.Ledger.Sqlite
use res_ex_machina.Mcp.Ledger.Sqlite.{SqliteLedger}
use res_ex_machina.Mcp.Ledger.Agreement
use res_ex_machina.Mcp.Ledger.Agreement.{Call, run_memory, run_sqlite}
use res_ex_machina.Mcp.Write.{
  Args, ConfirmationRequest, State, Env, Request, prepares, confirms, collects, run, confirm,
  begin_confirm, failed, invalid_confirmation,
}
use res_ex_machina.Mcp.Write.Requests

abbrev pub config : EnvConfig
config = record {
  chain_id = 84532;
  allowed_chain_ids = 84532 ∷ [];
  allow_mainnet = false;
  private_key = some (codes "0x01");
  enable_write_tools = true;
  confirmation_mode = require;
  allow_auto_mode = true;
  max_rxm_fee_wei = 10000000000000000;
  max_gas_cost_wei = 500000000000000;
  max_total_tx_cost_wei = 10500000000000000;
  max_spend_per_day_wei = 50000000000000000;
  max_records_per_day = 20;
  default_tags = codes "mcp" ∷ [];
  max_batch_size = 10;
  batch_dedup_before_pay = true;
}

abbrev calls : List Call
calls =
    Agreement.transaction 5 (codes "r") (codes "t") 7 3
    ∷ Agreement.batch_job 6 (codes "b") 2 1 1 10
    ∷ Agreement.job_status (codes "b") completed (some 10)
    ∷ []

abbrev after_calls : SqliteLedger
after_calls = record {
  spending_log =
      record { id = codes "r"; tx_hash = codes "t"; amount_wei = 7; gas_wei = 3; timestamp = 5 }
      ∷ [];
  failed_attempts = [];
  batch_jobs =
      record {
        batch_id = codes "b";
        created_at = 6;
        total_items = 2;
        new_items = 1;
        duplicate_items = 1;
        status = completed;
        estimated_cost_wei = 10;
        actual_cost_wei = 10;
      }
      ∷ [];
  batch_items = [];
  audit_events = [];
}

ledgers_agree_example :
    (Memory.get_daily_stats 9 (run_memory calls Memory.empty)
      ≡ Sqlite.get_daily_stats 9 after_calls)
    × (Memory.check_guardrails config 9 7 3 (run_memory calls Memory.empty)
        ≡ Sqlite.check_guardrails config 9 7 3 after_calls)
    × (Memory.check_batch_guardrails config 9 4 7 3 (run_memory calls Memory.empty)
        ≡ Sqlite.check_batch_guardrails config 9 4 7 3 after_calls)
    × ((run_memory calls Memory.empty).audit_events ≡ after_calls.audit_events)
unfolding run_sqlite Agreement.call_sqlite Sqlite.record_transaction Sqlite.created
    Sqlite.create_batch_job Sqlite.update_batch_job_status text_eq
ledgers_agree_example = Agreement.ledgers_agree true calls after_calls config 9 4 7 3 refl

abbrev pub env : Env
env = record {
  config = config;
  verify = λ h. some false;
  record_hash = λ h model. some h;
  compute_content_hash = λ t. codes "sha256:" ++ t;
}

abbrev pub args : Args
args = record { content = some (codes "a text"); content_hash = none; model_id = codes "model" }

abbrev start : State
start = record { pending = []; ledger = Sqlite.created }

abbrev pub requests : List Request
requests =
    prepares 10 (codes "attempt") (codes "first") args
    ∷ confirms 20 30 (codes "first")
    ∷ collects 40
    ∷ []

confirm_once_example :
    confirm env 60 70
      (codes "first")
      (confirm env 20 30
        (codes "first")
        (run env (prepares 10 (codes "attempt") (codes "first") args ∷ []) start)).0
    ≡ (
      (confirm env 20 30
          (codes "first")
          (run env (prepares 10 (codes "attempt") (codes "first") args ∷ []) start)).0,
      failed invalid_confirmation,
    )
confirm_once_example =
    Requests.confirm_once env 20 30 60 70 (codes "first")
      (run env (prepares 10 (codes "attempt") (codes "first") args ∷ []) start)

abbrev waiting : ConfirmationRequest
waiting = record { id = codes "a"; args = args; fee_wei = 7; gas_cost_wei = 3; expires_at = 300000 }

abbrev two_pending : State
two_pending = record {
  pending = (codes "a", waiting) ∷ (codes "b", record waiting { id = codes "b" }) ∷ [];
  ledger = Sqlite.created;
}

begin_confirm_reserves_nothing_example :
    (begin_confirm env 7 (codes "b") (begin_confirm env 5 (codes "a") two_pending).0).1
    ≡ (begin_confirm env 7 (codes "b") two_pending).1
unfolding begin_confirm Sqlite.check_guardrails Sqlite.get_daily_stats spent map_get text_eq
    Sqlite.created
begin_confirm_reserves_nothing_example =
    Requests.begin_confirm_reserves_nothing env 5 7 (codes "a") (codes "b") two_pending waiting
      (ground arith) refl
