-- ===== src/V1/Payments.antt =====
-- src/services/fee.ts, paymentVerifier.ts and x402Verifier.ts. What the chain and the x402
-- facilitator answer are arguments. The table `payment_attempts` maps an id to its row, with the
-- columns that these functions read or write; times are in milliseconds.
pub mod Settlement
pub mod Frame
use res_ex_machina.Common.{
  ℕ, ◌-◌, ◌*◌, Bool, true, false, not, ◌&&◌, ◌||◌, List, [], ◌∷◌, map, Option, none, some, Text,
  ltb, if◌then◌else◌, is_some, inl, inr, ◌⊎◌, any_of, find_first, text_eq, same_hex, map_get,
  map_set,
}

pub record Transaction : Type 0 where
  pub value : ℕ
  pub to_address : Option Text

pub record FeeReceipt : Type 0 where
  pub success : Bool
  pub block_number : ℕ

pub record FeeConfig : Type 0 where
  pub min_fee_wei : ℕ
  pub fee_receiver_address : Text
  pub fee_tx_max_age_ms : ℕ

-- The transaction with its receipt, `none` if either call throws; the time of its block in seconds.
pub record FeeAnswers : Type 0 where
  pub fetched : Option (Transaction × FeeReceipt)
  pub block_timestamp : Option ℕ

pub record FeeVerificationResult : Type 0 where
  pub amount : ℕ
  pub recipient : Text
  pub block_number : ℕ
  pub confirmed_at : ℕ

pub data PaymentError : Type 0 where
  fee_not_verified fee_insufficient fee_wrong_recipient fee_tx_expired : PaymentError
  call_failed invalid_payment x402_verification_failed x402_settlement_failed : PaymentError
  fee_tx_reused insert_failed : PaymentError
  -- The text of what `createRecord` throws.
  not_recorded : PaymentError

pub data FeeResult : Type 0 where
  failed_fee : PaymentError → FeeResult
  verified : FeeVerificationResult → FeeResult

unfoldable pub verify_fee : FeeConfig → ℕ → FeeAnswers → FeeResult
verify_fee cfg now answers = elim answers.fetched [
  | none ↦ failed_fee fee_not_verified
  | some (tx, receipt) ↦
      if not receipt.success
      then failed_fee fee_not_verified
      else if ltb tx.value cfg.min_fee_wei
      then failed_fee fee_insufficient
      else elim tx.to_address [
        | none ↦ failed_fee fee_wrong_recipient
        | some recipient ↦
            if not (same_hex recipient cfg.fee_receiver_address)
            then failed_fee fee_wrong_recipient
            else elim answers.block_timestamp [
              | none ↦ failed_fee call_failed
              | some t ↦
                  if ltb cfg.fee_tx_max_age_ms (now - t * 1000)
                  then failed_fee fee_tx_expired
                  else verified (record {
                    amount = tx.value;
                    recipient = recipient;
                    block_number = receipt.block_number;
                    confirmed_at = t * 1000;
                  })
            ]
      ]
]

pub data Method : Type 0 where
  legacy_eth x402_usdc : Method

pub data AttemptStatus : Type 0 where
  pending settled failed : AttemptStatus

pub record PaymentAttempt : Type 0 where
  pub content_hash : Text
  pub method : Method
  pub status : AttemptStatus
  pub payment_identifier : Text
  pub tx_hash : Option Text
  pub amount_atomic : Option ℕ
  pub error : Option PaymentError
  pub record_id : Option Text

abbrev pub Attempts : Type 0
Attempts = List (Text × PaymentAttempt)

-- Whether a signature decodes to a payload of the right form, and what the facilitator answers to
-- `verify` and to `settle`, whether it succeeded and the amount; `none` is a call that throws.
pub record X402Answers : Type 0 where
  pub payload : Bool
  pub is_valid : Option Bool
  pub settlement : Option (Bool × ℕ)

-- `verifyAndSettle` of x402Verifier.ts.
unfoldable pub x402_verify_and_settle : X402Answers → PaymentError ⊎ ℕ
x402_verify_and_settle answers =
    if not answers.payload then inl invalid_payment else elim answers.is_valid [
      | none ↦ inl call_failed
      | some false ↦ inl x402_verification_failed
      | some true ↦ elim answers.settlement [
        | none ↦ inl call_failed
        | some (false, amount) ↦ inl x402_settlement_failed
        | some (true, amount) ↦ inr amount
      ]
    ]

-- The evidence of a payment: the hash of a transaction, or an identifier with a signature.
pub data PaymentEvidence : Type 0 where
  legacy : Text → PaymentEvidence
  x402 : Text → Text → PaymentEvidence

abbrev pub identifier_of : PaymentEvidence → Text
identifier_of (legacy tx_hash) = tx_hash
identifier_of (x402 identifier signature) = identifier

abbrev pub new_attempt : Text → PaymentEvidence → PaymentAttempt
new_attempt content_hash (legacy tx_hash) = record {
  content_hash = content_hash;
  method = legacy_eth;
  status = pending;
  payment_identifier = tx_hash;
  tx_hash = some tx_hash;
  amount_atomic = none;
  error = none;
  record_id = none;
}
new_attempt content_hash (x402 identifier signature) = record {
  content_hash = content_hash;
  method = x402_usdc;
  status = pending;
  payment_identifier = identifier;
  tx_hash = none;
  amount_atomic = none;
  error = none;
  record_id = none;
}

-- What a payment leaves behind: the table, and the settled attempt or the error thrown.
pub data Settled : Type 0 where
  settled_as : PaymentAttempt → Settled
  refused_with : PaymentError → Settled

-- `UPDATE payment_attempts SET ... WHERE id = ...`.
unfoldable pub update_attempt : Text → (PaymentAttempt → PaymentAttempt) → Attempts → Attempts
update_attempt id change db = elim (map_get id db) [ none ↦ db | some a ↦ map_set id (change a) db ]

abbrev pub uses : Text → Attempts → Bool
uses identifier db =
    any_of (λ (a : Text × PaymentAttempt). text_eq a.1.payment_identifier identifier) db

abbrev pub settle : ℕ → PaymentAttempt → PaymentAttempt
settle amount a = record a { status = settled; amount_atomic = some amount }

abbrev pub fail_with : PaymentError → PaymentAttempt → PaymentAttempt
fail_with e a = record a { status = failed; error = some e }

module _ (cfg : FeeConfig) where
  -- The amount that the evidence pays, checked by `verifyFee` or settled by the facilitator.
  abbrev pub pays :
      ℕ → (Text → FeeAnswers) → (Text → X402Answers) → PaymentEvidence → PaymentError ⊎ ℕ
  pays now chain facilitator (legacy tx_hash) = elim (verify_fee cfg now (chain tx_hash)) [
    | failed_fee e ↦ inl e
    | verified r ↦ inr r.amount
  ]
  pays now chain facilitator (x402 identifier signature) =
      x402_verify_and_settle (facilitator signature)

  -- `verifyAndSettle`; `id` is the one that the database gives to the new row.
  unfoldable pub verify_and_settle :
      ℕ
      → (Text → FeeAnswers)
      → (Text → X402Answers)
      → Text
      → PaymentEvidence
      → Text
      → Attempts
      → Attempts × Settled
  verify_and_settle now chain facilitator id evidence content_hash db =
      if uses (identifier_of evidence) db
      then (db, refused_with fee_tx_reused)
      else if is_some (map_get id db)
      then (db, refused_with insert_failed)
      else let attempt = new_attempt content_hash evidence in
        let db' = map_set id attempt db in
        elim (pays now chain facilitator evidence) [
          | inl e ↦ (update_attempt id (fail_with e) db', refused_with e)
          | inr amount ↦ (update_attempt id (settle amount) db', settled_as (settle amount attempt))
        ]

unfoldable pub link_record : Text → Text → Attempts → Attempts
link_record attempt_id record_id db =
    update_attempt attempt_id (λ a. record a { record_id = some record_id }) db

-- The columns of `records` that `preCheck` reads.
pub record PaidRecord : Type 0 where
  pub record_id : Text
  pub content_hash : Text
  pub payment_attempt_id : Option Text

pub data PreCheckResult : Type 0 where
  duplicate_conflict : Text → PreCheckResult
  cached_response : PaidRecord → PreCheckResult
  proceed : PreCheckResult

-- Whether a record was paid for with this identifier; an empty one counts as none.
unfoldable pub is_paid_with : Option Text → PaidRecord → Attempts → Bool
is_paid_with none r db = false
is_paid_with (some []) r db = false
is_paid_with (some (c ∷ identifier)) r db = elim r.payment_attempt_id [
  | none ↦ false
  | some id ↦ elim (map_get id db) [
    | none ↦ false
    | some a ↦ text_eq a.payment_identifier (c ∷ identifier)
  ]
]

unfoldable pub pre_check : Text → Option Text → List PaidRecord → Attempts → PreCheckResult
pre_check content_hash identifier records db =
    elim (find_first (λ (r : PaidRecord). text_eq r.content_hash content_hash) records) [
      | none ↦ proceed
      | some r ↦
          if is_paid_with identifier r db then cached_response r else duplicate_conflict r.record_id
    ]
