-- ===== src/V1/Records/Posting.antt =====
-- src/routes/records.ts, `POST /v1/records`: signature, deduplication, payment, record. The body has
-- passed its schema, and the handler runs with nothing in between.
use res_ex_machina.Common.{
  ℕ, [], Option, none, some, inl, inr, Text, codes, map, if◌then◌else◌, or_else,
}
use res_ex_machina.Mcp.Write.{given}
use res_ex_machina.V1.Payments.{
  PaymentEvidence, legacy, x402, PaymentAttempt, settled_as, refused_with, failed, not_recorded,
  update_attempt, verify_and_settle, link_record, PaidRecord, duplicate_conflict, cached_response,
  proceed, pre_check,
}
use res_ex_machina.V1.Records.{
  CreateRecordInput, CreateRecordResult, RecordError, duplicate_content_hash, fee_tx_hash_required,
  payment_failed, Store, Services, paid_record, check_duplicates, verify_pog_signature,
  create_record,
}

pub record Headers : Type 0 where
  pub payment_identifier : Option Text
  pub payment_signature : Option Text

pub data PostReply : Type 0 where
  thrown : RecordError → PostReply
  cached : PaidRecord → PostReply
  payment_required : PostReply
  created : CreateRecordResult → PostReply

-- The identifiers that `generateRecordId` and the database give.
pub record NewIds : Type 0 where
  pub record_id : Text
  pub attempt_id : Text

-- The payment that the request offers, if it offers one.
unfoldable pub evidence_of : Headers → CreateRecordInput → Option PaymentEvidence
evidence_of headers input =
    if given headers.payment_signature
    then some (
        x402 (or_else headers.payment_identifier (codes "unknown"))
          (or_else headers.payment_signature []))
    else if given input.fee_tx_hash
    then some (legacy (or_else input.fee_tx_hash []))
    else none

abbrev pub legacy_hash : PaymentEvidence → Option Text
legacy_hash (legacy tx_hash) = some tx_hash
legacy_hash (x402 identifier signature) = none

-- The attempt of a record that could not be created.
abbrev pub mark_not_recorded : PaymentAttempt → PaymentAttempt
mark_not_recorded a = record a { status = failed; error = some not_recorded }

module _ (env : Services) where
  open env use {fee_config, x402_enabled, chain, facilitator}

  -- From the settled attempt on: the record and its link, or the attempt marked as failed.
  unfoldable pub record_paid :
      ℕ → NewIds → CreateRecordInput → PaymentAttempt → Store → Store × PostReply
  record_paid now ids input attempt s =
      let (s', result) = create_record env now ids.record_id input ids.attempt_id attempt s in
      elim result [
        | inl e ↦ (
          record s' { attempts = update_attempt ids.attempt_id mark_not_recorded s'.attempts },
          thrown e,
        )
        | inr r ↦
            (record s' { attempts = link_record ids.attempt_id r.record_id s'.attempts }, created r)
      ]

  -- From the checks of duplicates on.
  unfoldable pub pay_and_record :
      ℕ → NewIds → CreateRecordInput → PaymentEvidence → Store → Store × PostReply
  pay_and_record now ids input evidence s =
      let bundle = input.pog_bundle in
      elim (check_duplicates bundle.agent_wallet bundle.nonce (legacy_hash evidence) s.records) [
        | some e ↦ (s, thrown e)
        | none ↦
            let (attempts', settled) =
              verify_and_settle fee_config now chain facilitator ids.attempt_id evidence
                bundle.content_hash s.attempts in
            let s' = record s { attempts = attempts' } in
            elim settled [
              | refused_with e ↦ (s', thrown (payment_failed e))
              | settled_as attempt ↦ record_paid now ids input attempt s'
            ]
      ]

  unfoldable pub post_record : ℕ → NewIds → Headers → CreateRecordInput → Store → Store × PostReply
  post_record now ids headers input s = elim (verify_pog_signature env input.pog_bundle) [
    | some e ↦ (s, thrown e)
    | none ↦
        elim (pre_check input.pog_bundle.content_hash headers.payment_identifier
          (map paid_record s.records) s.attempts) [
            | duplicate_conflict id ↦ (s, thrown duplicate_content_hash)
            | cached_response r ↦ (s, cached r)
            | proceed ↦ elim (evidence_of headers input) [
              | some evidence ↦ pay_and_record now ids input evidence s
              | none ↦ (s, if x402_enabled then payment_required else thrown fee_tx_hash_required)
            ]
          ]
  ]
