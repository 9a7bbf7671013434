-- ===== src/Examples/Records.antt =====
-- Inputs for the theorems on the services of version 1, and what some runs give.
use res_ex_machina.Common.{
  ◌≡◌, ◌≢◌, refl, ◌⊎◌, true, false, [], ◌∷◌, none, some, Text, All, codes, starts_with, text_eq,
  to_lower_case, same_hex, map_get, map_set,
}
use res_ex_machina.V1.Anchoring.{
  Record, Records, pending_anchor, anchoring, AnchorResult, Answers, anchor_record, claim_record,
  claim_and_anchor, after_select, send_and_mark, set_anchored,
}
use res_ex_machina.V1.Anchoring.Claims
use res_ex_machina.V1.Urls.{
  Url, Network, is_blocked_ip, all_ips, clean_host, drop_closing, in_blocked_range, is_private,
  is_class_b, is_mapped_private, after_prefix, resolve_and_validate_hostname, validate_webhook_url,
}
use res_ex_machina.V1.Urls.Safety
use res_ex_machina.V1.Payments.{
  X402Answers, FeeConfig, FeeAnswers, FeeVerificationResult, verify_fee, legacy, Attempts,
  verify_and_settle, settled_as, refused_with, fee_tx_reused, settle, new_attempt,
}
use res_ex_machina.V1.Payments.Settlement

abbrev row : Record
row = record {
  state = pending_anchor;
  receipt_hash = codes "sha256:1";
  agent_wallet = codes "0xaa";
  anchor_tx_hash = none;
  anchor_block = none;
  anchor_chain_id = none;
  anchored_at = none;
  anchor_error_reason = none;
  anchor_retries = 0;
}

abbrev db : Records
db = (codes "r", row) ∷ []

abbrev works : Answers
works = record { send_transaction = some (codes "0xt"); receipt_block = some 5 }

abbrev fails : Answers
fails = record { send_transaction = none; receipt_block = none }

failed_send_sticks_example :
    (let out = anchor_record 8453 fails 1 (codes "r") (codes "h") [] db in
      (out.result ≡ none)
      × (map_get (codes "r") out.db ≡ some (record row { state = anchoring }))
      × (anchor_record 8453 works 2 (codes "r") (codes "h") [] out.db
          ≡ record { db = out.db; sent = none; announced = []; result = none }))
unfolding map_get text_eq
failed_send_sticks_example =
    Claims.failed_send_sticks 8453 fails works 1 2 (codes "r") (codes "h") [] db row refl refl refl
      refl

abbrev result : AnchorResult
result = record { tx_hash = codes "0xt"; block = 5; chain_id = 8453 }

anchor_record_again_example :
    (let out = anchor_record 8453 works 1 (codes "r") (codes "h") [] db in
      (map_get (codes "r") out.db ≡ some (set_anchored result 1 (record row { state = anchoring })))
      × (anchor_record 8453 fails 2 (codes "r") (codes "h") [] out.db
          ≡ record { db = out.db; sent = none; announced = []; result = some result }))
unfolding anchor_record after_select claim_and_anchor claim_record send_and_mark map_get map_set
    text_eq
anchor_record_again_example =
    Claims.anchor_record_again 8453 works fails 1 2 (codes "r") (codes "h") [] db row result refl
      refl refl

abbrev pub net : Network
net = record {
  is_ip = λ t. false;
  resolve4 = λ t. some (codes "93.184.216.34" ∷ []);
  resolve6 = λ t. none;
  parse_url = λ t. some (record { protocol = codes "https:"; hostname = codes "example.org" });
}

validate_webhook_url_example :
    (parsed : Url) × (net.parse_url (codes "https://example.org/hook") ≡ some parsed)
    × (parsed.protocol ≡ codes "https:")
    × (clean_host (to_lower_case parsed.hostname) ≢ codes "localhost")
    × (let host = clean_host (clean_host (to_lower_case parsed.hostname)) in
        ((net.is_ip host ≡ true) × (is_blocked_ip host ≡ false))
        ⊎ ((net.is_ip host ≡ false)
            × (all_ips net host ≢ [])
            × All (λ ip. is_blocked_ip ip ≡ false) (all_ips net host)))
unfolding validate_webhook_url resolve_and_validate_hostname is_blocked_ip in_blocked_range
    is_private is_class_b is_mapped_private after_prefix clean_host drop_closing starts_with text_eq
    to_lower_case
validate_webhook_url_example =
    Safety.validate_webhook_url_safe net (codes "https://example.org/hook") refl

-- An address of the unique local range fd00::/8 is not among the blocked ones.
unique_local_passes : is_blocked_ip (codes "fd00::1") ≡ false
unfolding is_blocked_ip in_blocked_range is_private is_class_b is_mapped_private after_prefix
    clean_host drop_closing starts_with text_eq to_lower_case
unique_local_passes = refl

abbrev pub fees : FeeConfig
fees = record {
  min_fee_wei = 100;
  fee_receiver_address = codes "0xFE";
  fee_tx_max_age_ms = 86400000;
}

abbrev pub chain : Text → FeeAnswers
chain t = record {
  fetched = some (
    record { value = 150; to_address = some (codes "0xfe") },
    record { success = true; block_number = 7 },
  );
  block_timestamp = some 1000;
}

abbrev paid : FeeVerificationResult
paid = record { amount = 150; recipient = codes "0xfe"; block_number = 7; confirmed_at = 1000000 }

abbrev pub no_facilitator : Text → X402Answers
no_facilitator s = record { payload = false; is_valid = none; settlement = none }

abbrev attempts : Attempts
attempts = []

payment_taken_once_example :
    (let db' =
        (verify_and_settle fees 2000000 chain no_facilitator
          (codes "1")
          (legacy (codes "0xab"))
          (codes "h")
          attempts).0 in
      verify_and_settle fees 2000000 chain no_facilitator
        (codes "2")
        (legacy (codes "0xab"))
        (codes "g")
        db'
      ≡ (db', refused_with fee_tx_reused))
unfolding map_get
payment_taken_once_example =
    Settlement.payment_taken_once fees 2000000 2000000 chain chain no_facilitator no_facilitator
      (codes "1") (codes "2") (legacy (codes "0xab")) (legacy (codes "0xab")) (codes "h")
      (codes "g") attempts refl refl

fee_settles_twice_example :
    (let (db', first) =
        verify_and_settle fees 2000000 chain no_facilitator
          (codes "1")
          (legacy (codes "0xab"))
          (codes "h")
          attempts in
      let (db'', second) =
        verify_and_settle fees 2000000 chain no_facilitator
          (codes "2")
          (legacy (codes "0xAB"))
          (codes "g")
          db' in
      (first ≡ settled_as (settle paid.amount (new_attempt (codes "h") (legacy (codes "0xab")))))
      × (second
          ≡ settled_as (settle paid.amount (new_attempt (codes "g") (legacy (codes "0xAB"))))))
unfolding verify_fee same_hex text_eq to_lower_case map_get
fee_settles_twice_example =
    Settlement.fee_settles_twice fees 2000000 chain no_facilitator (codes "1") (codes "2")
      (codes "0xab") (codes "0xAB") (codes "h") (codes "g") attempts paid refl refl refl refl refl
      refl refl refl refl
