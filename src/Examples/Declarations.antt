-- ===== src/Examples/Declarations.antt =====
-- Inputs for the theorems on src/v2.
use res_ex_machina.Common.{
  map, ℕ, List, ◌+◌, ◌*◌, ◌≤◌, ◌≡◌, refl, ◌⊎◌, true, [], ◌∷◌, ◌++◌, none, some, Text, arith, codes,
  starts_with, text_eq, to_lower_case, same_hex, map_get, map_set,
}
use res_ex_machina.Pog.Hex.{digits_value, hex_digit}
use res_ex_machina.Pog.Declaration.{
  nat, validate_declaration, problems_of, is_bytes32, has_length, utf8_len, in_range, is_zero_hex,
  is_canonical_signature, is_signature_text, number_at, recover_declaration_signer,
}
use res_ex_machina.Pog.Aux.{encode_single_aux, selector_single}
use res_ex_machina.V2.Store
use res_ex_machina.V2.Store.{
  DbDeclaration, Db, claim_for_anchoring, update_where, is_claimable, insert_declaration, has_form,
  is_lower_hex_text, clashes, get_by_digest, count_since, StoreOp, claim, release, apply_all,
  AnchorLog, mark_anchored, mark_attempt_failed, record_sent_tx, release_claim,
}
use res_ex_machina.V2.Store.States
use res_ex_machina.V2.Store.Lifecycle
use res_ex_machina.V2.Anchor.{
  Log, Answers, AnchorDeps, anchor_declaration, check_previous, check_and_send, send_and_wait,
  find_anchor_log, is_anchor_log,
}
use res_ex_machina.V2.Anchor.Outcomes
use res_ex_machina.V2.Anchor.Resend
use res_ex_machina.V2.Anchor.Unfetched
use res_ex_machina.V2.Accept.{
  V2Config, AcceptDeps, Submission, number, accept_declaration, examine, examine_submission,
  store_checked, new_row, since, to_declaration, seconds_of, matches_schema, is_hex_text,
  is_declared_at, metadata_agrees, ok, Checked,
}
use res_ex_machina.V2.Accept.Storing
use res_ex_machina.V2.Accept.Resubmission
use res_ex_machina.Examples.Proofs.{zeros, low_s, bytes, any_text}

abbrev agent : Text
agent = codes "0x00000000000000000000000000000000000000aa"

abbrev row : DbDeclaration
row = record {
  id = codes "id";
  digest = codes "0xd1";
  agent = agent;
  nonce = codes "0x03";
  content_hash = codes "0x01";
  signature = zeros ++ codes "xx";
  chain_id = 8453;
  contract = codes "0xcc";
  agent_id_scheme = 2;
  agent_id = codes "0x04";
  state = Store.pending;
  attempts = 1;
  lease_until = none;
  anchor_tx_hash = some (codes "0xold");
  anchor_log_index = none;
  anchor_block = none;
  anchor_block_time = none;
  anchored_at = none;
  last_error = none;
  created_at = 0;
}

abbrev db : Db
db = (codes "id", row) ∷ []

abbrev claimed : DbDeclaration
claimed = record row {
  state = Store.anchoring;
  lease_until = some (1000 + 300 * 1000);
  attempts = 2;
}

claim_exclusive_example :
    claim_for_anchoring 5000 (codes "id") 300 (claim_for_anchoring 1000 (codes "id") 300 db).0
    ≡ ((claim_for_anchoring 1000 (codes "id") 300 db).0, none)
unfolding claim_for_anchoring update_where is_claimable map_get map_set text_eq
claim_exclusive_example =
    States.claim_exclusive 1000 5000 (codes "id") 300 300 db claimed refl (omega arith)

abbrev done : DbDeclaration
done = record row { state = Store.anchored }

apply_all-Steps_example :
    (q : DbDeclaration) × (map_get
        (codes "id")
        (apply_all (claim 7 (codes "id") 300 ∷ release (codes "id") (codes "paused") ∷ []) db)
      ≡ some q)
    × (Lifecycle.declared q ≡ Lifecycle.declared row)
    × Lifecycle.Steps row.state row.attempts q.state q.attempts
unfolding map_get text_eq
apply_all-Steps_example =
    Lifecycle.apply_all-Steps
      (claim 7 (codes "id") 300 ∷ release (codes "id") (codes "paused") ∷ []) db (codes "id") row
      refl

final_forever_example :
    map_get (codes "id") (
      apply_all
        (claim 7 (codes "id") 300 ∷ release (codes "id") (codes "paused") ∷ [])
        ((codes "id", done) ∷ []))
    ≡ some done
unfolding map_get text_eq
final_forever_example =
    States.final_forever (claim 7 (codes "id") 300 ∷ release (codes "id") (codes "paused") ∷ [])
      ((codes "id", done) ∷ []) (codes "id") done refl refl

abbrev deps : AnchorDeps
deps = record {
  viem = record bytes { size = λ t. 65 };
  erc8263_topic0 = codes "topic";
  message = λ e. codes "error";
  low_balance = λ a b. codes "low";
  max_attempts = 5;
  lease_seconds = 300;
  min_relayer_balance_wei = none;
}

abbrev anchor_log : Log
anchor_log = record {
  address = codes "0xCC";
  topics = codes "topic" ∷ codes "x" ∷ codes "0xD1" ∷ [];
  log_index = some 4;
}

abbrev answers : Answers
answers = record {
  previous_receipt = none;
  previous_block_time = none;
  balance = none;
  write_contract = λ aux. some (codes "0xnew");
  receipt = some (record { success = true; logs = anchor_log ∷ []; block_number = 9 });
  block_time = some 3;
}

anchor_declaration-Settles_example :
    Outcomes.Settles deps
      (codes "id")
      claimed
      (anchor_declaration deps answers 1000 (codes "id") db)
unfolding claim_for_anchoring update_where is_claimable map_get map_set text_eq
anchor_declaration-Settles_example =
    Outcomes.anchor_declaration-Settles deps answers 1000 (codes "id") db claimed refl

abbrev place : AnchorLog
place = record { log_index = 4; block = 9; block_time = 3000 }

anchored-IsEvidence_example :
    ((claimed.anchor_tx_hash ≡ some (codes "0xnew"))
      × ((anchor_declaration deps answers 1000 (codes "id") db).sent ≡ none)
      × Resend.IsEvidence deps claimed answers.previous_receipt place)
    ⊎ (((anchor_declaration deps answers 1000 (codes "id") db).sent ≡ some (codes "0xnew"))
        × Resend.IsEvidence deps claimed answers.receipt place)
unfolding anchor_declaration check_previous check_and_send send_and_wait find_anchor_log
    is_anchor_log encode_single_aux selector_single claim_for_anchoring update_where is_claimable
    map_get map_set text_eq same_hex to_lower_case
anchored-IsEvidence_example =
    Resend.anchored-IsEvidence deps answers 1000 (codes "id") db claimed (codes "0xnew") place refl
      refl

abbrev unfetched : Answers
unfetched = record answers { receipt = none }

-- Two attempts, which send different transactions.
abbrev runs : List (ℕ × Answers × Text)
runs =
    (1000, unfetched, codes "0xnew")
    ∷ (400000, record unfetched { write_contract = λ aux. some (codes "0xnewer") }, codes "0xnewer")
    ∷ []

lost_attempts_all_send_example :
    Unfetched.attempts_send deps (codes "id") runs db
    ≡ map (λ (r : ℕ × Answers × Text). some r.2) runs
unfolding encode_single_aux selector_single map_get text_eq
lost_attempts_all_send_example =
    Unfetched.lost_attempts_all_send deps (codes "id") _ runs db row refl refl (omega arith) refl
      refl
      (
        record { made = refl; lost = refl; previous_lost = refl },
        (record { made = refl; lost = refl; previous_lost = refl }, tt),
      )

abbrev pub submission : Submission
submission = record {
  declaration = record {
    agent = agent;
    content_hash = b'0' ∷ b'x' ∷ zeros ++ codes "1";
    input_hash = b'0' ∷ b'x' ∷ zeros ++ codes "2";
    model_id = codes "model";
    runtime_id = codes "runtime";
    process_type = nat 1;
    human_intervention = nat 2;
    pipeline_steps = nat 3;
    declared_at = number 100;
    nonce = b'0' ∷ b'x' ∷ zeros ++ codes "3";
    metadata_hash = b'0' ∷ b'x' ∷ zeros ++ codes "0";
  };
  signature = low_s;
  metadata = none;
}

abbrev pub accept_deps : AcceptDeps Submission
accept_deps = record {
  shape = λ s. some s;
  is_address = any_text;
  is_hex = any_text;
  hash_typed_data = λ chain contract d. b'0' ∷ b'x' ∷ zeros ++ codes "D";
  recover_address = λ digest s. some agent;
  quote = λ t. t;
  sha256 = λ t. t;
  keccak256 = λ t. t;
  to_bytes = λ t. t;
  show = λ n. n ∷ [];
}

abbrev pub cfg : V2Config
cfg = record {
  enabled = true;
  chain_id = 8453;
  contract = some (codes "0xcc");
  agent_daily_quota = 2;
  global_daily_quota = 10;
}

accept_declaration_stores_example :
    (let out = accept_declaration accept_deps cfg 200000 (codes "uuid") 7 true [] db submission in
      Storing.IsStored accept_deps cfg 200000 (codes "uuid") 7 true [] db submission out
      ⊎ Storing.IsLeft accept_deps cfg 200000 (codes "uuid") 7 [] db submission out)
accept_declaration_stores_example =
    Storing.accept_declaration_stores accept_deps cfg 200000 (codes "uuid") 7 true [] db submission

abbrev pub checked : Checked
checked = record {
  decl = to_declaration submission.declaration;
  signature = low_s;
  digest = b'0' ∷ b'x' ∷ zeros ++ codes "d";
  contract = codes "0xcc";
}

abbrev stored : DbDeclaration
stored = new_row accept_deps cfg (codes "uuid") 7 checked

accept_again_example :
    (let out = accept_declaration accept_deps cfg 200000 (codes "uuid") 7 true [] db submission in
      accept_declaration accept_deps cfg 300000 (codes "other") 9 true out.queue out.db submission
      ≡ record { reply = ok stored; db = out.db; queue = out.queue })
unfolding accept_declaration examine examine_submission store_checked to_declaration seconds_of
    matches_schema is_hex_text is_declared_at metadata_agrees validate_declaration problems_of
    is_bytes32 has_length utf8_len in_range is_zero_hex recover_declaration_signer
    is_canonical_signature is_signature_text number_at starts_with digits_value hex_digit same_hex
    text_eq to_lower_case get_by_digest count_since insert_declaration has_form is_lower_hex_text
    clashes map_get map_set
accept_again_example =
    Resubmission.accept_again accept_deps cfg 200000 300000 (codes "uuid") (codes "other") 7 9 true
      true [] db submission stored refl (omega arith)

accepted_within_quotas_example :
    (let out = accept_declaration accept_deps cfg 200000 (codes "uuid") 7 true [] db submission in
      (count_since (since accept_deps cfg 200000) (some stored.agent) out.db
        ≤ cfg.agent_daily_quota)
      × (count_since (since accept_deps cfg 200000) none out.db ≤ cfg.global_daily_quota))
unfolding accept_declaration examine examine_submission store_checked to_declaration seconds_of
    matches_schema is_hex_text is_declared_at metadata_agrees validate_declaration problems_of
    is_bytes32 has_length utf8_len in_range is_zero_hex recover_declaration_signer
    is_canonical_signature is_signature_text number_at starts_with digits_value hex_digit same_hex
    text_eq to_lower_case get_by_digest count_since insert_declaration has_form is_lower_hex_text
    clashes map_get map_set
accepted_within_quotas_example =
    Resubmission.accepted_within_quotas accept_deps cfg 200000 (codes "uuid") 7 true [] db
      submission stored refl
