-- ===== src/V1/Records.antt =====
-- src/services/recordsService.ts, receipt.ts and signature.ts: a record is checked, paid for and
-- inserted. What PostgreSQL reports on a violated constraint is an argument; every other statement
-- is taken to succeed. Left out are the columns that only a reader of the record sees.
pub mod Posting
pub mod Batches
pub mod Soundness
pub mod Recording
pub mod Operations
pub mod Retries
pub mod Idempotence
pub mod Totals
use res_ex_machina.Common.{
  ℕ, Bool, true, false, ◌&&◌, ◌||◌, List, [], ◌∷◌, ◌++◌, Option, none, some, ◌⊎◌, inl, inr, Text,
  codes, ◌==◌, text_eq, to_lower_case, if◌then◌else◌, is_some, or_else, any_of, select, starts_with,
}
use res_ex_machina.V1.Payments.{
  PaymentAttempt, PaymentError, Attempts, X402Answers, FeeAnswers, FeeConfig, PaidRecord,
}

pub record PogBundle : Type 0 where
  pub content_hash : Text
  pub agent_wallet : Text
  pub model_id : Text
  pub runtime_id : Text
  pub timestamp : Text
  pub nonce : Text
  pub signature : Text

pub record CreateRecordInput : Type 0 where
  pub pog_bundle : PogBundle
  pub content_type : Option Text
  pub tags : List Text
  pub fee_tx_hash : Option Text

-- The columns that the creation of a record, the checks and the anchoring read.
pub record RecordRow : Type 0 where
  pub record_id : Text
  pub content_hash : Text
  pub content_type : Option Text
  pub nonce : Text
  pub agent_wallet : Text
  pub state : Text
  pub created_at : ℕ
  pub receipt_hash : Text
  pub tags : List Text
  pub fee_tx_hash : Option Text
  pub payment_attempt_id : Option Text

-- The unique constraints of the table `records`.
pub data Constraint : Type 0 where
  record_id_key content_hash_key wallet_nonce_key fee_tx_hash_key : Constraint

pub data RecordError : Type 0 where
  invalid_signature signer_mismatch duplicate_content_hash duplicate_nonce : RecordError
  fee_tx_reused fee_tx_hash_required : RecordError
  payment_failed : PaymentError → RecordError

pub record CreateRecordResult : Type 0 where
  pub record_id : Text
  pub state : Text
  pub receipt_hash : Text
  pub created_at : ℕ

-- The tables and the jobs waiting in the anchoring queue.
pub record Store : Type 0 where
  pub records : List RecordRow
  pub attempts : Attempts
  pub queue : List Text

-- The libraries and services that the code calls: `verifyTypedData` of viem, `none` if it throws,
-- the SHA-256 digest in hexadecimal, `toISOString`, the chain and the x402 facilitator; which
-- violated constraint PostgreSQL reports, and in which words; whether Redis takes a job.
pub record Services : Type 0 where
  pub fee_config : FeeConfig
  pub x402_enabled : Bool
  pub verify_typed_data : PogBundle → Option Bool
  pub sha256 : Text → Text
  pub to_iso_string : ℕ → Text
  pub chain : Text → FeeAnswers
  pub facilitator : Text → X402Answers
  pub reported : Constraint → List Constraint → Constraint
  pub detail : Constraint → RecordRow → Text
  pub takes_job : Text → Bool

-- `includes`.
unfoldable pub includes : Text → Text → Bool
includes needle [] = starts_with needle []
includes needle (c ∷ s) = starts_with needle (c ∷ s) || includes needle s

abbrev pub same_option : Option Text → Option Text → Bool
same_option (some a) (some b) = text_eq a b
same_option a b = false

-- Whether two rows violate a unique constraint; two nulls do not.
unfoldable pub clashes : Constraint → RecordRow → RecordRow → Bool
clashes record_id_key a b = text_eq a.record_id b.record_id
clashes content_hash_key a b = text_eq a.content_hash b.content_hash
clashes wallet_nonce_key a b = text_eq a.agent_wallet b.agent_wallet && text_eq a.nonce b.nonce
clashes fee_tx_hash_key a b = same_option a.fee_tx_hash b.fee_tx_hash

unfoldable pub violations : RecordRow → List RecordRow → List Constraint
violations row rows =
    select (λ c. any_of (λ r. clashes c r row) rows)
      (record_id_key ∷ content_hash_key ∷ wallet_nonce_key ∷ fee_tx_hash_key ∷ [])

-- `checkDuplicates`: what it throws, if anything.
unfoldable pub check_duplicates : Text → Text → Option Text → List RecordRow → Option RecordError
check_duplicates agent_wallet nonce fee_tx_hash rows =
    let wallet = to_lower_case agent_wallet in
    let by_fee : Bool = elim fee_tx_hash [
      | none ↦ false
      | some [] ↦ false
      | some (c ∷ hash) ↦
          any_of (λ (r : RecordRow). same_option r.fee_tx_hash (some (c ∷ hash))) rows
    ] in
    if any_of (λ (r : RecordRow). text_eq r.agent_wallet wallet && text_eq r.nonce nonce) rows
    then some duplicate_nonce
    else if by_fee
    then some fee_tx_reused
    else none

module _ (env : Services) where
  open env use {verify_typed_data, sha256, to_iso_string, reported, detail, takes_job}

  -- `verifyPoGSignature`: what it throws, if anything.
  unfoldable pub verify_pog_signature : PogBundle → Option RecordError
  verify_pog_signature bundle = elim (verify_typed_data bundle) [
    | none ↦ some invalid_signature
    | some false ↦ some signer_mismatch
    | some true ↦ none
  ]

  unfoldable pub compute_receipt_hash : Text → Text → Text → Text → ℕ → Text
  compute_receipt_hash record_id content_hash agent_wallet nonce created_at =
      let bar = codes "|" in
      codes "sha256:"
      ++ sha256 (
          record_id
          ++ bar
          ++ content_hash
          ++ bar
          ++ to_lower_case agent_wallet
          ++ bar
          ++ nonce
          ++ bar
          ++ to_iso_string created_at)

  -- The error that a violated constraint is answered with, from the words that report it.
  unfoldable pub constraint_error : Text → RecordError
  constraint_error words =
      let text = to_lower_case words in
      if includes (codes "content_hash") text
      then duplicate_content_hash
      else if includes (codes "wallet_nonce") text
      then duplicate_nonce
      else if includes (codes "fee_tx_hash") text
      then fee_tx_reused
      else duplicate_content_hash

  abbrev pub new_row : ℕ → Text → CreateRecordInput → Text → PaymentAttempt → RecordRow
  new_row now record_id input attempt_id attempt =
      let bundle = input.pog_bundle in
      record {
        record_id = record_id;
        content_hash = bundle.content_hash;
        content_type = input.content_type;
        nonce = bundle.nonce;
        agent_wallet = to_lower_case bundle.agent_wallet;
        state = codes "pending_anchor";
        created_at = now;
        receipt_hash =
            compute_receipt_hash record_id bundle.content_hash bundle.agent_wallet bundle.nonce now;
        tags = input.tags;
        fee_tx_hash = elim attempt.tx_hash [
          | none ↦ none
          | some [] ↦ none
          | some (c ∷ t) ↦ some (c ∷ t)
        ];
        payment_attempt_id = some attempt_id;
      }

  -- `createRecord`, under the identifier that `generateRecordId` gives. A job that is not taken is
  -- logged only.
  unfoldable pub create_record :
      ℕ
      → Text
      → CreateRecordInput
      → Text
      → PaymentAttempt
      → Store
      → Store × (RecordError ⊎ CreateRecordResult)
  create_record now record_id input attempt_id attempt s =
      let row = new_row now record_id input attempt_id attempt in
      elim (violations row s.records) [
        | c ∷ cs ↦ (s, inl (constraint_error (detail (reported c cs) row)))
        | [] ↦ (
          record s {
            records = s.records ++ row ∷ [];
            queue = if takes_job record_id then s.queue ++ record_id ∷ [] else s.queue;
          },
          inr (record {
            record_id = record_id;
            state = codes "pending_anchor";
            receipt_hash = row.receipt_hash;
            created_at = now;
          }),
        )
      ]

-- The columns that `preCheck` reads.
abbrev pub paid_record : RecordRow → PaidRecord
paid_record r = record {
  record_id = r.record_id;
  content_hash = r.content_hash;
  payment_attempt_id = r.payment_attempt_id;
}
