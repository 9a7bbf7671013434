-- ===== src/Mcp/Batch/Confirm.antt =====
-- packages/mcp-server/src/tools/batch.ts: the confirmation of a batch. As in write.ts, it has a part
-- before its first `await`, and one that goes on from the job in the ledger.
use res_ex_machina.Common.{
  ℕ, suc, ◌+◌, ◌*◌, Bool, true, false, not, List, [], ◌∷◌, ◌++◌, Option, none, some, ◌⊎◌, inl, inr,
  Text, codes, ltb, ◌==◌, if◌then◌else◌, length, select, or_else, map_get, map_delete,
}
use res_ex_machina.Mcp.Ledger.{
  allowed, blocked, BatchJobStatus, processing, completed, BatchItemRecord, success, failure,
  duplicate,
}
use res_ex_machina.Mcp.Ledger as Ledger
use res_ex_machina.Mcp.Ledger.Sqlite.{
  SqliteLedger, record_transaction, check_batch_guardrails, create_batch_job,
  update_batch_job_status, add_batch_item,
}
use res_ex_machina.Mcp.Batch.{
  NewItem, BatchConfirmationRequest, BatchState, BatchFailure, invalid_confirmation,
  confirmation_expired, ledger_error, guardrail_blocked, ItemOutcome, made, not_made, Summary,
  BatchReply, confirmed, refused, BatchEnv, note_failure,
}

pub data BatchBegun : Type 0 where
  stopped : BatchFailure → BatchBegun
  cleared : BatchConfirmationRequest → BatchBegun

-- What the loop of a confirmation changes.
pub record Progress : Type 0 where
  pub ledger : SqliteLedger
  pub results : List ItemOutcome
  pub actual_cost : ℕ

abbrev pub is_made : ItemOutcome → Bool
is_made (made hash id) = true
is_made (not_made hash message) = false

abbrev pub duplicate_row : Text → Text → BatchItemRecord
duplicate_row batch_id hash = record {
  batch_id = batch_id;
  content_hash = hash;
  record_id = none;
  fee_tx_hash = none;
  status = duplicate;
  error_code = none;
}

abbrev pub failed_row : Text → NewItem → Text → BatchItemRecord
failed_row batch_id item message = record {
  batch_id = batch_id;
  content_hash = item.content_hash;
  record_id = none;
  fee_tx_hash = none;
  status = failure;
  error_code = some message;
}

abbrev pub made_row : Text → NewItem → Text → BatchItemRecord
made_row batch_id item record_id = record {
  batch_id = batch_id;
  content_hash = item.content_hash;
  record_id = some record_id;
  fee_tx_hash = some (codes "0x_rxm_sdk_batch");
  status = success;
  error_code = none;
}

-- `createBatchJob` and the status that follows.
unfoldable pub open_job : ℕ → BatchConfirmationRequest → SqliteLedger → Option SqliteLedger
open_job now req l =
    let count = length req.new_items in
    let duplicates = length req.duplicate_hashes in
    elim (create_batch_job now req.batch_id (count + duplicates) count duplicates
      ((req.per_item_fee_wei + req.per_item_gas_wei) * count) l) [
        | none ↦ none
        | some l' ↦ some (update_batch_job_status req.batch_id processing none l')
      ]

abbrev pub made_count : Progress → ℕ
made_count p = length (select is_made p.results)

abbrev pub failed_count : Progress → ℕ
failed_count p = length (select (λ r. not (is_made r)) p.results)

unfoldable pub final_status : Progress → BatchJobStatus
final_status p =
    if failed_count p == 0
    then completed
    else if made_count p == 0
    then Ledger.failed
    else completed

abbrev pub summarize : BatchConfirmationRequest → Progress → Summary
summarize req p = record {
  total = length req.new_items + length req.duplicate_hashes;
  success = made_count p;
  failed = failed_count p;
  duplicates = length req.duplicate_hashes;
  actual_cost_wei = p.actual_cost;
  results = p.results;
}

module _ (env : BatchEnv) where
  open env use {config, record_hash, foreign_keys, constraint_message}

  -- `rxm_confirm_batch` up to the job in the ledger.
  unfoldable pub begin_batch : ℕ → Text → BatchState → BatchState × BatchBegun
  unfolding note_failure
  begin_batch now id s = elim (map_get id s.pending) [
    | none ↦ (s, stopped invalid_confirmation)
    | some req ↦
        let s' = record s { pending = map_delete id s.pending } in
        if ltb req.expires_at now
        then (s', stopped confirmation_expired)
        else elim (check_batch_guardrails config now (length req.new_items) req.per_item_fee_wei
            req.per_item_gas_wei s.ledger) [
              | blocked reason ↦ (
                note_failure now id (codes "Batch confirm guardrail") s',
                stopped (guardrail_blocked reason),
              )
              | allowed ↦ (s', cleared req)
            ]
  ]

  -- The loop over the duplicates; `inr` is the ledger at a statement that throws.
  unfoldable pub add_duplicates : Text → List Text → SqliteLedger → SqliteLedger ⊎ SqliteLedger
  add_duplicates batch_id [] l = inl l
  add_duplicates batch_id (hash ∷ hashes) l =
      elim (add_batch_item foreign_keys (duplicate_row batch_id hash) l) [
        | none ↦ inr l
        | some l' ↦ add_duplicates batch_id hashes l'
      ]

  -- The `catch` of an item.
  unfoldable pub item_failed : Text → NewItem → Text → Progress → Progress ⊎ SqliteLedger
  item_failed batch_id item message p =
      elim (add_batch_item foreign_keys (failed_row batch_id item message) p.ledger) [
        | none ↦ inr p.ledger
        | some l ↦ inl (record p {
          ledger = l;
          results = p.results ++ not_made item.content_hash message ∷ [];
        })
      ]

  -- The end of the `try` of an item, once its transaction is entered.
  unfoldable pub item_made :
      BatchConfirmationRequest → NewItem → Text → Progress → Progress ⊎ SqliteLedger
  item_made req item record_id p =
      elim (add_batch_item foreign_keys (made_row req.batch_id item record_id) p.ledger) [
        | none ↦ item_failed req.batch_id item constraint_message p
        | some l ↦ inl (record {
          ledger = l;
          results = p.results ++ made item.content_hash record_id ∷ [];
          actual_cost = p.actual_cost + (req.per_item_fee_wei + req.per_item_gas_wei);
        })
      ]

  -- One round of the loop over the new items, for the `k`-th item, at the time `now`.
  unfoldable pub process_item :
      ℕ → ℕ → BatchConfirmationRequest → NewItem → Progress → Progress ⊎ SqliteLedger
  process_item k now req item p =
      let tags = or_else item.args.tags [] ++ config.default_tags in
      elim (record_hash k item.content_hash item.args.model_id tags item.args.content_type) [
        | inr message ↦ item_failed req.batch_id item message p
        | inl record_id ↦
            elim (record_transaction now record_id (codes "0x_rxm_sdk_batch") req.per_item_fee_wei
              req.per_item_gas_wei p.ledger) [
                | none ↦ item_failed req.batch_id item constraint_message p
                | some l ↦ item_made req item record_id (record p { ledger = l })
              ]
      ]

  -- The loop; `clock` gives the time at which each item is entered.
  unfoldable pub process_items :
      (ℕ → ℕ) → ℕ → BatchConfirmationRequest → List NewItem → Progress → Progress ⊎ SqliteLedger
  process_items clock k req [] p = inl p
  process_items clock k req (item ∷ items) p = elim (process_item k (clock k) req item p) [
    | inr l ↦ inr l
    | inl p' ↦ process_items clock (suc k) req items p'
  ]

  -- The handler from the job on; `clock` starts when the confirmation is cleared.
  unfoldable pub finish_batch :
      (ℕ → ℕ) → ℕ → BatchConfirmationRequest → BatchState → BatchState × BatchReply
  finish_batch clock now req s = elim (open_job now req s.ledger) [
    | none ↦ (s, refused ledger_error)
    | some opened ↦ elim (add_duplicates req.batch_id req.duplicate_hashes opened) [
      | inr l ↦ (record s { ledger = l }, refused ledger_error)
      | inl l ↦
          elim (process_items clock 0 req req.new_items
            (record { ledger = l; results = []; actual_cost = 0 })) [
              | inr l' ↦ (record s { ledger = l' }, refused ledger_error)
              | inl p ↦ (
                record s {
                  ledger =
                      update_batch_job_status req.batch_id (final_status p) (some p.actual_cost)
                        p.ledger;
                },
                confirmed req.batch_id (summarize req p),
              )
            ]
    ]
  ]

  -- A confirmation with nothing in between.
  unfoldable pub confirm_batch : (ℕ → ℕ) → ℕ → Text → BatchState → BatchState × BatchReply
  confirm_batch clock now id s =
      let (s', begun) = begin_batch now id s in
      elim begun [ stopped f ↦ (s', refused f) | cleared req ↦ finish_batch clock now req s' ]
