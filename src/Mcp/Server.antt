-- ===== src/Mcp/Server.antt =====
-- packages/mcp-server/src/tools/write.ts and batch.ts in one process: two stores of pending
-- confirmations over one ledger file, which each of the modules opens for itself.
pub mod Limits
use res_ex_machina.Common.{ℕ, List, [], ◌∷◌, Text}
use res_ex_machina.Mcp.Ledger.Sqlite.{SqliteLedger}
use res_ex_machina.Mcp.Write.{Env, ConfirmationRequest, State, Request, step}
use res_ex_machina.Mcp.Batch.{
  Item, BatchConfirmationRequest, BatchState, BatchEnv, collect_expired_batches, prepare_batch,
}
use res_ex_machina.Mcp.Batch.Confirm.{confirm_batch}

pub record Server : Type 0 where
  pub pending_confirmations : List (Text × ConfirmationRequest)
  pub pending_batch_confirmations : List (Text × BatchConfirmationRequest)
  pub ledger : SqliteLedger

abbrev pub write_state : Server → State
write_state s = record { pending = s.pending_confirmations; ledger = s.ledger }

abbrev pub batch_state : Server → BatchState
batch_state s = record { pending = s.pending_batch_confirmations; ledger = s.ledger }

abbrev pub set_write_state : State → Server → Server
set_write_state t s = record s { pending_confirmations = t.pending; ledger = t.ledger }

abbrev pub set_batch_state : BatchState → Server → Server
set_batch_state t s = record s { pending_batch_confirmations = t.pending; ledger = t.ledger }

-- A call of a tool or a timer. A confirmed batch has the time of its check, the clock of its items
-- and the time at which its handler returns.
pub data Call : Type 0 where
  single : Request → Call
  prepares_batch : ℕ → Text → Text → List Item → Call
  confirms_batch : ℕ → (ℕ → ℕ) → ℕ → Text → Call
  collects_batches : ℕ → Call

-- Both tools work with the configuration of `getConfig`, so the two environments share it.
module _ (env : Env) (batch_env : BatchEnv) where
  unfoldable pub serve : Call → Server → Server
  serve (single r) s = set_write_state (step env r (write_state s)) s
  serve (prepares_batch now attempt id items) s =
      set_batch_state (prepare_batch batch_env now attempt id items (batch_state s)).0 s
  serve (confirms_batch now clock later id) s =
      set_batch_state (confirm_batch batch_env clock now id (batch_state s)).0 s
  serve (collects_batches now) s = set_batch_state (collect_expired_batches now (batch_state s)) s

  unfoldable pub serve_all : List Call → Server → Server
  serve_all [] s = s
  serve_all (c ∷ cs) s = serve_all cs (serve c s)
