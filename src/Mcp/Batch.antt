-- ===== src/Mcp/Batch.antt =====
-- packages/mcp-server/src/tools/batch.ts: a batch of records is prepared, and made when it is
-- confirmed. What a confirmation does is in Batch/Confirm.antt.
pub mod Confirm
pub mod Room
pub mod Spending
pub mod Preparing
pub mod Jobs
pub mod Accounting
use res_ex_machina.Common.{
  ℕ, zero, suc, ◌+◌, ◌*◌, Bool, true, false, not, ◌&&◌, List, [], ◌∷◌, ◌++◌, Option, none, some,
  ◌⊎◌, inl, inr, Text, codes, ltb, ◌==◌, if◌then◌else◌, length, select, or_else, map_get, map_set,
  map_delete,
}
use res_ex_machina.Mcp.Config.{EnvConfig}
use res_ex_machina.Mcp.Ledger.{
  Reason, allowed, blocked, BatchJobStatus, processing, completed, BatchItemStatus, BatchItemRecord,
  success, failure, duplicate,
}
use res_ex_machina.Mcp.Ledger as Ledger
use res_ex_machina.Mcp.Ledger.Sqlite.{
  SqliteLedger, record_transaction, record_failed_attempt, check_batch_guardrails, create_batch_job,
  update_batch_job_status, add_batch_item,
}
use res_ex_machina.Mcp.Write.{given, predicted_gas}

pub record Item : Type 0 where
  pub content : Option Text
  pub content_hash : Option Text
  pub model_id : Text
  pub tags : Option (List Text)
  pub content_type : Option Text

pub record NewItem : Type 0 where
  pub content_hash : Text
  pub args : Item

pub record BatchConfirmationRequest : Type 0 where
  pub batch_id : Text
  pub new_items : List NewItem
  pub duplicate_hashes : List Text
  pub per_item_fee_wei : ℕ
  pub per_item_gas_wei : ℕ
  pub expires_at : ℕ

pub record BatchState : Type 0 where
  pub pending : List (Text × BatchConfirmationRequest)
  pub ledger : SqliteLedger

pub data BatchFailure : Type 0 where
  too_many_items missing_content remote_error invalid_confirmation : BatchFailure
  confirmation_expired ledger_error : BatchFailure
  guardrail_blocked : Reason → BatchFailure

-- An element of `results`: a success with the record's identifier, or a failure with its message.
pub data ItemOutcome : Type 0 where
  made : Text → Text → ItemOutcome
  not_made : Text → Text → ItemOutcome

pub record Summary : Type 0 where
  pub total : ℕ
  pub success : ℕ
  pub failed : ℕ
  pub duplicates : ℕ
  pub actual_cost_wei : ℕ
  pub results : List ItemOutcome

pub record Quote : Type 0 where
  pub batch_confirmation_id : Text
  pub total_items : ℕ
  pub new_items : ℕ
  pub duplicate_items : ℕ
  pub estimated_total_cost_wei : ℕ
  pub per_item_fee_wei : ℕ
  pub per_item_gas_wei : ℕ

pub data BatchReply : Type 0 where
  all_exist : ℕ → ℕ → BatchReply
  prepared : Quote → BatchReply
  confirmed : Text → Summary → BatchReply
  refused : BatchFailure → BatchReply

-- `newItems` and `duplicateHashes` after the loop of the preparation.
pub record Sorted : Type 0 where
  pub new_items : List NewItem
  pub duplicate_hashes : List Text

-- The timer that drops expired confirmations.
unfoldable pub collect_expired_batches : ℕ → BatchState → BatchState
collect_expired_batches now s = record s {
  pending =
      select (λ (p : Text × BatchConfirmationRequest). not (ltb p.1.expires_at now)) s.pending;
}

-- The configuration; the client's calls to the API, where `record_hash` is told which item of the
-- batch it is for and answers with an identifier or with the message that it throws; the hash of
-- the SDK; and of the database driver, whether it checks references and what it says when a
-- statement throws.
pub record BatchEnv : Type 0 where
  pub config : EnvConfig
  pub verify : Text → Option Bool
  pub record_hash : ℕ → Text → Text → List Text → Option Text → Text ⊎ Text
  pub compute_content_hash : Text → Text
  pub foreign_keys : Bool
  pub constraint_message : Text

-- `recordFailedAttempt`; the text leaves out the numbers of the guardrail's reason.
unfoldable pub note_failure : ℕ → Text → Text → BatchState → BatchState
note_failure now id reason s = record s {
  ledger = or_else (record_failed_attempt now id reason s.ledger) s.ledger;
}

module _ (env : BatchEnv) where
  open env use {config, verify, record_hash, compute_content_hash, foreign_keys, constraint_message}

  abbrev pub item_hash : Item → Text
  item_hash item =
      if given item.content_hash
      then or_else item.content_hash []
      else compute_content_hash (or_else item.content [])

  -- The loop over the items of a preparation.
  unfoldable pub sort_items : List Item → Sorted ⊎ BatchFailure
  sort_items [] = inl (record { new_items = []; duplicate_hashes = [] })
  sort_items (item ∷ items) =
      let rest = sort_items items in
      let hash = item_hash item in
      let known : Option Bool = if config.batch_dedup_before_pay then verify hash else some false in
      if not (given item.content) && not (given item.content_hash)
      then inr missing_content
      else elim known [
        | none ↦ inr remote_error
        | some exists ↦ elim rest [
          | inr thrown ↦ inr thrown
          | inl sorted ↦ inl (
              if exists
              then record sorted { duplicate_hashes = hash ∷ sorted.duplicate_hashes }
              else record sorted {
                new_items = record { content_hash = hash; args = item } ∷ sorted.new_items;
              })
        ]
      ]

  -- `rxm_prepare_batch`, with the two identifiers that `randomUUID` would give.
  unfoldable pub prepare_batch : ℕ → Text → Text → List Item → BatchState → BatchState × BatchReply
  unfolding note_failure
  prepare_batch now attempt_id batch_id items s =
      let fee = config.max_rxm_fee_wei in
      if ltb config.max_batch_size (length items)
      then (s, refused too_many_items)
      else elim (sort_items items) [
        | inr thrown ↦ (s, refused thrown)
        | inl sorted ↦
            let count = length sorted.new_items in
            if count == 0
            then (s, all_exist (length items) (length sorted.duplicate_hashes))
            else elim (check_batch_guardrails config now count fee predicted_gas s.ledger) [
              | blocked reason ↦ (
                note_failure now attempt_id (codes "Batch guardrail") s,
                refused (guardrail_blocked reason),
              )
              | allowed ↦ (
                record s {
                  pending =
                      map_set batch_id
                        (record {
                          batch_id = batch_id;
                          new_items = sorted.new_items;
                          duplicate_hashes = sorted.duplicate_hashes;
                          per_item_fee_wei = fee;
                          per_item_gas_wei = predicted_gas;
                          expires_at = now + 10 * 60 * 1000;
                        })
                        s.pending;
                },
                prepared (record {
                  batch_confirmation_id = batch_id;
                  total_items = length items;
                  new_items = count;
                  duplicate_items = length sorted.duplicate_hashes;
                  estimated_total_cost_wei = (fee + predicted_gas) * count;
                  per_item_fee_wei = fee;
                  per_item_gas_wei = predicted_gas;
                }),
              )
            ]
      ]
