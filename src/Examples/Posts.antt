-- ===== src/Examples/Posts.antt =====
-- Inputs for the theorems on requests for records of version 1.
use res_ex_machina.Common.{
  ◌≡◌, refl, inl, true, List, [], ◌∷◌, none, some, Text, codes, map_get, text_eq,
}
use res_ex_machina.V1.Payments.{
  PaymentAttempt, legacy_eth, settled, failed, X402Answers, PaidRecord, verify_and_settle,
  x402_verify_and_settle, update_attempt, pre_check,
}
use res_ex_machina.V1.Records.{
  CreateRecordInput, CreateRecordResult, RecordRow, RecordError, Store, Services, check_duplicates,
  create_record, verify_pog_signature, compute_receipt_hash, violations, clashes,
}
use res_ex_machina.V1.Records.Posting.{
  Headers, NewIds, cached, post_record, pay_and_record, record_paid, evidence_of,
}
use res_ex_machina.V1.Records.Batches.{record_item}
use res_ex_machina.V1.Records.Soundness.{IsSound}
use res_ex_machina.V1.Records.Operations
use res_ex_machina.V1.Records.Operations.{Operation, posts, processes, perform}
use res_ex_machina.V1.Records.Retries
use res_ex_machina.V1.Records.Idempotence
use res_ex_machina.Examples.Records.{fees, chain}

abbrev settles : Text → X402Answers
settles s = record { payload = true; is_valid = some true; settlement = some (true, 5) }

abbrev services : Services
services = record {
  fee_config = fees;
  x402_enabled = true;
  verify_typed_data = λ b. some true;
  sha256 = λ t. t;
  to_iso_string = λ t. codes "2026-01-01T00:00:00.000Z";
  chain = chain;
  facilitator = settles;
  reported = λ c cs. c;
  detail = λ c r. codes "Key (content_hash)=(h) already exists.";
  takes_job = λ id. true;
}

abbrev input : CreateRecordInput
input = record {
  pog_bundle = record {
    content_hash = codes "sha256:1";
    agent_wallet = codes "0xAA";
    model_id = codes "model";
    runtime_id = codes "node";
    timestamp = codes "now";
    nonce = codes "n";
    signature = codes "0xs";
  };
  content_type = none;
  tags = [];
  fee_tx_hash = some (codes "0xab");
}

abbrev headers : Headers
headers = record {
  payment_identifier = some (codes "pay");
  payment_signature = some (codes "signed");
}

abbrev ids : NewIds
ids = record { record_id = codes "r"; attempt_id = codes "1" }

abbrev other_ids : NewIds
other_ids = record { record_id = codes "q"; attempt_id = codes "2" }

abbrev nothing : Store
nothing = record { records = []; attempts = []; queue = [] }

abbrev operations : List Operation
operations = posts 2000000 ids headers input ∷ processes 2000001 other_ids input ∷ []

perform-IsSound_example : IsSound (perform services operations nothing)
perform-IsSound_example =
    Operations.perform-IsSound services operations nothing (record { paid = tt; distinct = tt })

post_record-NoOrphan_example :
    Retries.NoOrphan (codes "1") (post_record services 2000000 ids headers input nothing).0
unfolding map_get
post_record-NoOrphan_example =
    Retries.post_record-NoOrphan services 2000000 ids headers input nothing refl

abbrev made : CreateRecordResult
made = record {
  record_id = codes "r";
  state = codes "pending_anchor";
  receipt_hash =
      compute_receipt_hash services (codes "r") (codes "sha256:1") (codes "0xAA") (codes "n")
        2000000;
  created_at = 2000000;
}

post_record_again_example :
    (let s' = (post_record services 2000000 ids headers input nothing).0 in
      (p : PaidRecord) × (p.record_id ≡ codes "r")
      × (p.content_hash ≡ codes "sha256:1")
      × (post_record services 3000000 other_ids headers input s' ≡ (s', cached p)))
unfolding post_record evidence_of verify_pog_signature pre_check check_duplicates pay_and_record
    record_paid create_record violations clashes verify_and_settle x402_verify_and_settle
    update_attempt map_get text_eq
post_record_again_example =
    Idempotence.post_record_again services 2000000 3000000 ids other_ids headers input nothing made
      _ _ refl refl refl

abbrev attempt : PaymentAttempt
attempt = record {
  content_hash = codes "sha256:1";
  method = legacy_eth;
  status = settled;
  payment_identifier = codes "0xab";
  tx_hash = some (codes "0xab");
  amount_atomic = some 150;
  error = none;
  record_id = none;
}

abbrev row : RecordRow
row = record {
  record_id = codes "old";
  content_hash = codes "sha256:1";
  content_type = none;
  nonce = codes "m";
  agent_wallet = codes "0xbb";
  state = codes "pending_anchor";
  created_at = 1;
  receipt_hash = codes "sha256:2";
  tags = [];
  fee_tx_hash = some (codes "0xcd");
  payment_attempt_id = some (codes "0");
}

abbrev met : Store
met = record { records = row ∷ []; attempts = (codes "1", attempt) ∷ []; queue = [] }

record_item_orphans_example :
    ((b : PaymentAttempt) × (map_get
          (codes "1")
          (record_paid services 2000000 ids input attempt met).0.attempts
        ≡ some b)
      × (b.status ≡ failed)
      × (b.record_id ≡ none))
    × ((record_paid services 2000000 ids input attempt met).0.records ≡ met.records)
    × ¬ Retries.NoOrphan (codes "1") (record_item services 2000000 ids input attempt met).0
    × ((e : RecordError) × ((record_item services 2000000 ids input attempt met).1 ≡ inl (some e)))
unfolding map_get text_eq
record_item_orphans_example =
    Retries.record_item_orphans services 2000000 ids input attempt met refl refl refl refl
