-- ===== src/V1/Records/Batches.antt =====
-- src/routes/records.ts, `POST /v1/records/batch`: the work on one item, with nothing in between,
-- and the answer that is made of what became of the items.
use res_ex_machina.Common.{
  ℕ, suc, not, List, [], ◌∷◌, Option, none, some, ◌⊎◌, inl, inr, map, ◌==◌, if◌then◌else◌, or_else,
  length,
}
use res_ex_machina.Mcp.Write.{given}
use res_ex_machina.V1.Payments.{
  legacy, PaymentAttempt, settled_as, refused_with, verify_and_settle, link_record,
  duplicate_conflict, cached_response, proceed, pre_check,
}
use res_ex_machina.V1.Records.{
  CreateRecordInput, CreateRecordResult, RecordError, duplicate_content_hash, fee_tx_hash_required,
  payment_failed, Store, Services, paid_record, check_duplicates, verify_pog_signature,
  create_record,
}
use res_ex_machina.V1.Records.Posting.{NewIds}

-- What becomes of an item; `inl none` is an error that is not an ApiError.
abbrev pub Settlement : Type 0
Settlement = Option RecordError ⊎ CreateRecordResult

module _ (env : Services) where
  open env use {fee_config, chain, facilitator}

  -- From the settled attempt on.
  unfoldable pub record_item :
      ℕ → NewIds → CreateRecordInput → PaymentAttempt → Store → Store × Settlement
  record_item now ids item attempt s =
      let (s', result) = create_record env now ids.record_id item ids.attempt_id attempt s in
      elim result [
        | inl e ↦ (s', inl (some e))
        | inr r ↦
            (record s' { attempts = link_record ids.attempt_id r.record_id s'.attempts }, inr r)
      ]

  unfoldable pub pay_item : ℕ → NewIds → CreateRecordInput → Store → Store × Settlement
  pay_item now ids item s =
      let (attempts', settled) =
        verify_and_settle fee_config now chain facilitator ids.attempt_id
          (legacy (or_else item.fee_tx_hash [])) item.pog_bundle.content_hash s.attempts in
      let s' = record s { attempts = attempts' } in
      elim settled [
        | refused_with e ↦ (s', inl (some (payment_failed e)))
        | settled_as attempt ↦ record_item now ids item attempt s'
      ]

  -- From the checks of duplicates on.
  unfoldable pub check_and_pay : ℕ → NewIds → CreateRecordInput → Store → Store × Settlement
  check_and_pay now ids item s =
      elim (check_duplicates item.pog_bundle.agent_wallet item.pog_bundle.nonce item.fee_tx_hash
        s.records) [
          | some e ↦ (s, inl (some e))
          | none ↦
              if not (given item.fee_tx_hash)
              then (s, inl (some fee_tx_hash_required))
              else pay_item now ids item s
        ]

  -- The `async` function of an item. There is no identifier, so no cached response.
  unfoldable pub process_record : ℕ → NewIds → CreateRecordInput → Store → Store × Settlement
  process_record now ids item s =
      let bundle = item.pog_bundle in
      elim (verify_pog_signature env bundle) [
        | some e ↦ (s, inl (some e))
        | none ↦ elim (pre_check bundle.content_hash none (map paid_record s.records) s.attempts) [
          | duplicate_conflict id ↦ (s, inl (some duplicate_content_hash))
          | cached_response r ↦ check_and_pay now ids item s
          | proceed ↦ check_and_pay now ids item s
        ]
      ]

pub data BatchResult : Type 0 where
  batch_success : ℕ → CreateRecordResult → BatchResult
  batch_error : ℕ → Option RecordError → BatchResult

pub record BatchAnswer : Type 0 where
  pub status_code : ℕ
  pub results : List BatchResult
  pub total : ℕ
  pub succeeded : ℕ
  pub failed : ℕ

pub record Collected : Type 0 where
  pub results : List BatchResult
  pub succeeded : ℕ
  pub failed : ℕ

-- The loop over the settlements, from index `i` on.
unfoldable pub collect : ℕ → List Settlement → Collected
collect i [] = record { results = []; succeeded = 0; failed = 0 }
collect i (inr r ∷ settlements) =
    let rest = collect (suc i) settlements in
    record rest { results = batch_success i r ∷ rest.results; succeeded = suc rest.succeeded }
collect i (inl e ∷ settlements) =
    let rest = collect (suc i) settlements in
    record rest { results = batch_error i e ∷ rest.results; failed = suc rest.failed }

unfoldable pub batch_answer : List Settlement → BatchAnswer
batch_answer settlements =
    let c = collect 0 settlements in
    record {
      status_code = if c.failed == 0 then 201 else if c.succeeded == 0 then 400 else 207;
      results = c.results;
      total = length settlements;
      succeeded = c.succeeded;
      failed = c.failed;
    }
