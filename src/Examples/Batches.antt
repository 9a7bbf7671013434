-- ===== src/Examples/Batches.antt =====
-- Inputs for the theorems on batches, on the whole MCP server and on its audit trail.
use res_ex_machina.Common.{
  map, select, ℕ, zero, suc, ◌+◌, ◌*◌, ◌≤◌, ◌≡◌, refl, true, false, List, [], ◌∷◌, ◌++◌, Option,
  none, some, inl, inr, ◌⊎◌, Text, All, arith, codes, length, map_get, text_eq,
}
use res_ex_machina.Mcp.Config.{ConfirmationMode, auto}
use res_ex_machina.Mcp.Ledger.{allowed, spent, AuditEvent, BatchJobResult}
use res_ex_machina.Mcp.Ledger.Sqlite
use res_ex_machina.Mcp.Ledger.Sqlite.{get_batch_job, check_batch_guardrails}
use res_ex_machina.Mcp.Ledger.Limits
use res_ex_machina.Mcp.Batch.{
  item_hash, Item, NewItem, BatchConfirmationRequest, BatchState, BatchEnv, Quote, prepare_batch,
  sort_items, confirmed,
}
use res_ex_machina.Mcp.Write.{predicted_gas}
use res_ex_machina.Mcp.Batch.Confirm.{
  Progress, begin_batch, confirm_batch, summarize, made_count, failed_count, final_status,
}
use res_ex_machina.Mcp.Batch.Preparing
use res_ex_machina.Mcp.Batch.Accounting
use res_ex_machina.Mcp.Server.{
  Server, Call, prepares_batch, confirms_batch, collects_batches, serve_all,
}
use res_ex_machina.Mcp.Server.Limits as ServerLimits
use res_ex_machina.Mcp.Control.{ControlState, ModeCall, mode_text, set_modes}
use res_ex_machina.Mcp.Control.Trail
use res_ex_machina.Examples.Guardrails.{config, env}

abbrev item : Item
item = record {
  content = some (codes "a text");
  content_hash = none;
  model_id = codes "model";
  tags = none;
  content_type = none;
}

-- The first record of a batch is made, the others are refused.
abbrev answer : ℕ → Text → Text → List Text → Option Text → Text ⊎ Text
answer zero h model tags kind = inl h
answer (suc n) h model tags kind = inr (codes "busy")

abbrev batch_env : BatchEnv
batch_env = record {
  config = config;
  verify = λ h. some false;
  record_hash = answer;
  compute_content_hash = λ t. codes "sha256:" ++ t;
  foreign_keys = true;
  constraint_message = codes "constraint";
}

abbrev items : List Item
items = item ∷ record item { content = some (codes "another text") } ∷ []

abbrev clock : ℕ → ℕ
clock k = 30

abbrev server : Server
server = record {
  pending_confirmations = [];
  pending_batch_confirmations = [];
  ledger = Sqlite.created;
}

abbrev calls : List Call
calls =
    prepares_batch 10 (codes "attempt") (codes "batch") items
    ∷ confirms_batch 20 clock 40 (codes "batch")
    ∷ collects_batches 50
    ∷ []

serve_all-IsWithin_example : Limits.IsWithin config 60 (serve_all env batch_env calls server).ledger
unfolding Sqlite.get_daily_stats spent Sqlite.created
serve_all-IsWithin_example =
    ServerLimits.serve_all-IsWithin env batch_env calls 0 60 server refl
      (
        omega arith,
        (
          omega arith,
          omega arith,
          (λ i. omega arith),
          (λ i. omega arith),
          (omega arith, omega arith),
        ),
      )
      (record { spending = omega arith; records = omega arith })

abbrev pending_request : BatchConfirmationRequest
pending_request = record {
  batch_id = codes "batch";
  new_items =
      record { content_hash = codes "h"; args = item }
      ∷ record { content_hash = codes "g"; args = item }
      ∷ [];
  duplicate_hashes = codes "d" ∷ [];
  per_item_fee_wei = 7;
  per_item_gas_wei = 3;
  expires_at = 600000;
}

abbrev one_pending : BatchState
one_pending = record { pending = (codes "batch", pending_request) ∷ []; ledger = Sqlite.created }

confirm_batch_accounts_example :
    (let after = confirm_batch batch_env clock 20 (codes "batch") one_pending in
      (p : Progress) × (r : BatchJobResult) × (after.1
        ≡ confirmed (codes "batch") (summarize pending_request p))
      × (made_count p + failed_count p ≡ 2)
      × (p.actual_cost ≡ 10 * made_count p)
      × (get_batch_job (codes "batch") after.0.ledger ≡ some r)
      × (r.job.status ≡ final_status p)
      × (r.job.actual_cost_wei ≡ p.actual_cost))
unfolding begin_batch Sqlite.check_batch_guardrails Sqlite.get_daily_stats spent map_get text_eq
    Sqlite.created
confirm_batch_accounts_example =
    Accounting.confirm_batch_accounts batch_env clock 20 (codes "batch") one_pending pending_request
      refl refl

abbrev empty : BatchState
empty = record { pending = []; ledger = Sqlite.created }

abbrev quote : Quote
quote = record {
  batch_confirmation_id = codes "batch";
  total_items = 2;
  new_items = 2;
  duplicate_items = 0;
  estimated_total_cost_wei = 2 * (10000000000000000 + predicted_gas);
  per_item_fee_wei = 10000000000000000;
  per_item_gas_wei = predicted_gas;
}

prepare_batch_quotes_example :
    (req : BatchConfirmationRequest) × (map_get
        (codes "batch")
        (prepare_batch batch_env 10 (codes "attempt") (codes "batch") items empty).0.pending
      ≡ some req)
    × (2 + 0 ≡ 2)
    × (2 ≤ config.max_batch_size)
    × (1 ≤ 2)
    × All (Preparing.IsFresh batch_env) req.new_items
    × (map (λ (i : NewItem). i.args) req.new_items ≡ select (Preparing.is_unknown batch_env) items)
    × (req.duplicate_hashes
        ≡ map (item_hash batch_env) (select (Preparing.is_known batch_env) items))
    × (req.per_item_fee_wei ≡ quote.per_item_fee_wei)
    × (req.per_item_gas_wei ≡ quote.per_item_gas_wei)
    × (req.batch_id ≡ codes "batch")
    × (length req.new_items ≡ 2)
    × (length req.duplicate_hashes ≡ 0)
    × (quote.estimated_total_cost_wei ≡ (quote.per_item_fee_wei + quote.per_item_gas_wei) * 2)
    × (check_batch_guardrails config 10
          (length req.new_items)
          req.per_item_fee_wei
          req.per_item_gas_wei
          Sqlite.created
        ≡ allowed)
    × (req.expires_at ≡ 10 + 600000)
unfolding prepare_batch sort_items Sqlite.check_batch_guardrails Sqlite.get_daily_stats spent
    Sqlite.created
prepare_batch_quotes_example =
    Preparing.prepare_batch_quotes batch_env 10 (codes "attempt") (codes "batch") items empty quote
      refl refl

abbrev change : ModeCall
change = record {
  now = 5;
  event_id = codes "e";
  request_id = codes "r";
  mode = auto;
  reason = some (codes "unattended run");
}

abbrev control : ControlState
control = record { config = some config; ledger = Sqlite.created }

set_modes-Trail_example :
    (let after = set_modes none (change ∷ []) control in
      (mode : ConfirmationMode) × (es : List AuditEvent) × (after.config
        ≡ some (record config { confirmation_mode = mode }))
      × (after.ledger.audit_events ≡ Sqlite.created.audit_events ++ es)
      × Trail.Trail (mode_text config.confirmation_mode) es (mode_text mode))
unfolding Sqlite.created
set_modes-Trail_example = Trail.set_modes-Trail none (change ∷ []) config control refl (refl, tt)
