-- ===== src/Examples/Receipts.antt =====
-- Inputs for the theorems on receipts.
use res_ex_machina.Common.{
  true, map_get, map_set, ℕ, ◌≡◌, refl, ◌↔◌, [], ◌∷◌, ◌++◌, Option, none, some, Text, codes,
  starts_with, text_eq, to_lower_case, same_hex, length, ◌-◌,
}
use res_ex_machina.Pog.Hex.{digits_value, hex_digit}
use res_ex_machina.Pog.Aux.{decode_aux, selector_single, selector_batch}
use res_ex_machina.Pog.Merkle.{verify_merkle_proof, climb, merkle_leaf}
use res_ex_machina.Pog.Events.{RpcLog, decode_anchor_log}
use res_ex_machina.Pog.Declaration.{
  Value, nat, validate_declaration, problems_of, is_bytes32, has_length, utf8_len, in_range,
  is_zero_hex, is_canonical_signature, is_signature_text, number_at, recover_declaration_signer,
}
use res_ex_machina.Pog.Verify.{
  Libraries, verify_from_chain, verify_declaration, check_proof, check_signer, check_agent_id,
  check_content,
}
use res_ex_machina.V2.Store
use res_ex_machina.V2.Store.{
  DbDeclaration, get_by_digest, count_since, insert_declaration, has_form, is_lower_hex_text,
  clashes,
}
use res_ex_machina.V2.Accept.{
  SubmittedDeclaration, number, seconds_of, to_declaration, AcceptDeps, Submission, new_row,
  accept_declaration, examine, examine_submission, store_checked, matches_schema, is_hex_text,
  is_declared_at, metadata_agrees,
}
use res_ex_machina.V2.Receipt.{
  receipt, get_declaration, Columns, Locator, ParsedReceipt, stored_declaration, anchored_at,
  to_receipt, parse_receipt, parse_declaration, big_int_of,
}
use res_ex_machina.V2.Receipt.Parsing
use res_ex_machina.V2.Receipt.Serving
use res_ex_machina.V2.Receipt.Trust
use res_ex_machina.V2.Receipt.Trust.{
  Client, VerifyOptions, default_rpc, choose_client, ask_chain, verify_receipt,
}
use res_ex_machina.Examples.Proofs
use res_ex_machina.Examples.Declarations
use res_ex_machina.Examples.Proofs.{zeros, low_s, bytes}

-- Numbers as texts of one code.
abbrev show : ℕ → Text
show n = n ∷ []

abbrev big_int : Text → Option Value
big_int [] = none
big_int (n ∷ t) = some (nat n)

abbrev submitted : SubmittedDeclaration
submitted = record {
  agent = codes "0x00000000000000000000000000000000000000AA";
  content_hash = b'0' ∷ b'x' ∷ zeros ++ codes "1";
  input_hash = b'0' ∷ b'x' ∷ zeros ++ codes "2";
  model_id = codes "model";
  runtime_id = codes "runtime";
  process_type = nat 1;
  human_intervention = nat 2;
  pipeline_steps = nat 3;
  declared_at = number 1700000000;
  nonce = b'0' ∷ b'x' ∷ zeros ++ codes "3";
  metadata_hash = b'0' ∷ b'x' ∷ zeros ++ codes "0";
}

abbrev columns : Columns
columns = record { declaration = stored_declaration show submitted; metadata = none }

abbrev row : DbDeclaration
row = record {
  id = codes "id";
  digest = codes "0xd1";
  agent = codes "0x00000000000000000000000000000000000000aa";
  nonce = submitted.nonce;
  content_hash = submitted.content_hash;
  signature = low_s;
  chain_id = 8453;
  contract = codes "0xcc";
  agent_id_scheme = 1;
  agent_id = codes "id";
  state = Store.anchored;
  attempts = 1;
  lease_until = none;
  anchor_tx_hash = some (codes "0xdd");
  anchor_log_index = some 2;
  anchor_block = some 5;
  anchor_block_time = some 1700000100;
  anchored_at = some 1700000200;
  last_error = none;
  created_at = 0;
}

parse_receipt_example :
    (p : ParsedReceipt) × (parse_receipt big_int (to_receipt show show row columns) ≡ some p)
    × (p.signature ≡ row.signature)
    × (p.domain ≡ record { chain_id = row.chain_id; verifying_contract = row.contract })
    × (Parsing.with_lower_hashes p.declaration
        ≡ record (to_declaration submitted) { agent = to_lower_case submitted.agent })
    × ((l : Locator) → (p.locator ≡ some l) ↔ Parsing.IsAnchoredAt row l)
parse_receipt_example =
    Parsing.parse_receipt-to_receipt big_int show show row columns submitted (λ n. refl) refl

-- The log of a single anchor, whose payload is the signature after a selector.
abbrev anchor_log : RpcLog
anchor_log = record Proofs.anchor_log { data_of = selector_single bytes ++ low_s }

abbrev lib : Libraries
lib = record Proofs.lib {
  viem = record bytes { size = λ t. length t - 67 };
  decode_event_log = λ l. some (record {
    agent_id_scheme = 1;
    agent_id = codes "id";
    proof_hash = codes "digest";
    operator = codes "op";
    aux = l.data_of;
  });
}

abbrev client : Client
client = record {
  chain_id = 8453;
  get_receipt = λ hash. some (record Proofs.chain_receipt { logs = anchor_log ∷ [] });
}

abbrev opts : VerifyOptions
opts = record { client = some client; rpc_url = none; content = none }

verify_receipt_example :
    (p : ParsedReceipt) × (parse_receipt big_int (to_receipt show show row columns) ≡ some p)
    × (l : Locator) × (p.locator ≡ some l)
    × (c : Client) × (choose_client (λ url. client) opts p.domain.chain_id ≡ some c)
    × Trust.IsShown big_int lib anchor_log opts p l c
unfolding verify_receipt ask_chain choose_client parse_receipt parse_declaration big_int_of
    to_receipt stored_declaration seconds_of anchored_at verify_from_chain verify_declaration
    check_proof check_signer check_agent_id check_content decode_anchor_log decode_aux
    selector_single selector_batch validate_declaration problems_of is_bytes32 has_length utf8_len
    in_range is_zero_hex verify_merkle_proof climb merkle_leaf recover_declaration_signer
    is_canonical_signature is_signature_text number_at starts_with digits_value hex_digit same_hex
    text_eq to_lower_case
verify_receipt_example =
    Trust.verify_receipt_sound big_int lib anchor_log (λ url. client) opts
      (to_receipt show show row columns) refl

abbrev digest : Text
digest = b'0' ∷ b'x' ∷ zeros ++ codes "A"

abbrev deps : AcceptDeps Submission
deps = record Declarations.accept_deps { hash_typed_data = λ chain contract d. digest }

abbrev accepted_row : DbDeclaration
accepted_row =
    new_row deps Declarations.cfg (codes "uuid") 7
      (record Declarations.checked { digest = to_lower_case digest })

accepted_is_served_example :
    (let out =
        accept_declaration deps Declarations.cfg 200000
          (codes "uuid")
          7
          true
          []
          []
          Declarations.submission in
      get_declaration show show (λ id. columns) digest out.db
      ≡ receipt (to_receipt show show accepted_row columns))
unfolding accept_declaration examine examine_submission store_checked to_declaration seconds_of
    matches_schema is_hex_text is_declared_at metadata_agrees validate_declaration problems_of
    is_bytes32 has_length utf8_len in_range is_zero_hex recover_declaration_signer
    is_canonical_signature is_signature_text number_at starts_with digits_value hex_digit same_hex
    text_eq to_lower_case get_by_digest count_since insert_declaration has_form is_lower_hex_text
    clashes map_get map_set
accepted_is_served_example =
    Serving.accepted_is_served deps Declarations.cfg show show (λ id. columns) 200000 (codes "uuid")
      7 true [] [] Declarations.submission accepted_row digest refl refl refl
