-- ===== src/Examples/Proofs.antt =====
-- Inputs for the theorems on packages/pog. The stand-ins for viem's functions work on lists of codes.
use res_ex_machina.Common.{
  sym, map, ◌*◌, ◌/◌, append-nil, ℕ, ◌+◌, ◌-◌, ◌≡◌, ap, ◌∙◌, ◌&&◌, ◌↔◌, refl, Bool, true, false,
  List, [], ◌∷◌, ◌++◌, none, some, Text, arith, codes, length, length-append, take, drop,
  find_first, All, leb, to_lower_case, text_eq, same_hex, starts_with, all_of, if◌then◌else◌,
}
use res_ex_machina.Pog.Hex.{IsHash, is_lower_hex, digits_value, hex_digit}
use res_ex_machina.Pog.Merkle.{merkle_root, merkle_proof, verify_merkle_proof, climb, merkle_leaf}
use res_ex_machina.Pog.Merkle.Completeness
use res_ex_machina.Pog.Aux.{
  Viem, single, IsBytes, JoinsBytes, decode_aux, encode_single_aux, selector_single, selector_batch,
}
use res_ex_machina.Pog.Aux.{decode_aux-encode_aux}
use res_ex_machina.Pog.Content.{Json, string, object, none_left, member, canonical_json}
use res_ex_machina.Pog.Content.Order
use res_ex_machina.Pog.Declaration.{
  PoGDeclaration, nat, validate_declaration, is_canonical_signature, is_signature_text, number_at,
  problems_of, is_bytes32, has_length, utf8_len, in_range, is_zero_hex, recover_declaration_signer,
}
use res_ex_machina.Pog.Declaration.Checks
use res_ex_machina.Pog.Events.{RpcLog, decode_anchor_log}
use res_ex_machina.Pog.Verify.{
  Libraries, VerifyInput, verify_declaration, check_proof, check_signer, check_agent_id,
  check_content, ChainReceipt, index_is, verify_from_chain,
}
use res_ex_machina.Pog.Verify.Evidence

-- One digit for a length.
abbrev pub digit_of : ℕ → ℕ
digit_of n = if leb n 9 then n + b'0' else b'a'

digit_lower : (n : ℕ) → is_lower_hex (digit_of n) ≡ true
digit_lower n = ground arith

All-lower : (s : Text) → all_of is_lower_hex s ≡ true → All (λ c. is_lower_hex c ≡ true) s
All-lower [] h = tt
All-lower (c ∷ s) h = (ground arith, All-lower s (ground arith))

abbrev pub zeros : Text
zeros = codes "000000000000000000000000000000000000000000000000000000000000000"

-- A hash of the right form that tells short texts apart by their lengths.
abbrev pub hash64 : Text → Text
hash64 t = b'0' ∷ b'x' ∷ zeros ++ digit_of (length t) ∷ []

hash64-IsHash : (t : Text) → IsHash (hash64 t)
hash64-IsHash t = record {
  body = zeros ++ digit_of (length t) ∷ [];
  prefixed = refl;
  sized = refl;
  lower =
      All-lower (zeros ++ digit_of (length t) ∷ []) (ap (λ b. b && true) (digit_lower (length t)));
}

abbrev pub flatten : List Text → Text
flatten [] = []
flatten (t ∷ ts) = t ++ flatten ts

verify_merkle_proof_example :
    (root : Text) × (proof : List Text) × (merkle_root hash64 flatten
        (codes "0x11" ∷ codes "0x22" ∷ codes "0x333" ∷ [])
      ≡ some root)
    × (merkle_proof hash64 flatten (codes "0x11" ∷ codes "0x22" ∷ codes "0x333" ∷ []) 2
        ≡ some proof)
    × (verify_merkle_proof hash64 flatten (codes "0x333") proof root ≡ some true)
verify_merkle_proof_example =
    Completeness.verify_merkle_proof_complete hash64 flatten hash64-IsHash
      (codes "0x11" ∷ codes "0x22" ∷ codes "0x333" ∷ []) 2 (codes "0x333") refl

abbrev pub bytes : Viem
bytes = record {
  keccak256 = λ t. length t ∷ 0 ∷ 0 ∷ 0 ∷ t;
  to_bytes = λ t. t;
  concat = flatten;
  size = length;
  slice = λ t from to. take (to - from) (drop from t);
  slice_from = λ t from. drop from t;
}

take_front : (s t : Text) → take (length s) (s ++ t) ≡ s
take_front [] t = refl
take_front (c ∷ s) t = ap (λ r. c ∷ r) (take_front s t)

drop_front : (s t : Text) → drop (length s) (s ++ t) ≡ t
drop_front [] t = refl
drop_front (c ∷ s) t = drop_front s t

-- viem's functions on texts of bytes, with a hash that tells lengths apart.
abbrev hex_bytes : Viem
hex_bytes = record {
  keccak256 = hash64;
  to_bytes = λ t. t;
  concat = λ ts. b'0' ∷ b'x' ∷ flatten (map (drop 2) ts);
  size = λ t. (length t - 2 + 1) / 2;
  slice = λ t from to. b'0' ∷ b'x' ∷ take (2 * (to - from)) (drop (2 * from) (drop 2 t));
  slice_from = λ t from. b'0' ∷ b'x' ∷ drop (2 * from) (drop 2 t);
}

-- The two parts of joined bytes, for a first part of four.
parts :
    (s t : Text) (h : IsBytes s) (k : IsBytes t)
    → hex_bytes.size s ≡ 4
    → (length h.body ≡ 8) × (hex_bytes.concat (s ∷ t ∷ []) ≡ b'0' ∷ b'x' ∷ h.body ++ k.body)
parts s t h k e = (
  omega (arith, h.sized, ap length h.prefixed, e),
  rw (h.prefixed, k.prefixed, append-nil k.body),
)

hex_bytes_join : JoinsBytes hex_bytes
hex_bytes_join = record {
  size-concat = λ s t h k e.
      let (eight, joined) = parts s t h k e in
      ap hex_bytes.size joined
      ∙ omega (arith, length-append h.body k.body, eight, k.sized, ap length k.prefixed);
  slice-concat = λ s t h k e.
      let (eight, joined) = parts s t h k e in
      ap (λ u. hex_bytes.slice u 0 4) joined
      ∙ ap (λ r. b'0' ∷ b'x' ∷ r)
          (ap (λ n. take n (h.body ++ k.body)) (sym eight) ∙ take_front h.body k.body)
      ∙ sym h.prefixed;
  slice_from-concat = λ s t h k e n.
      let (eight, joined) = parts s t h k e in
      ap (λ u. hex_bytes.slice_from u 4) joined
      ∙ ap (λ r. b'0' ∷ b'x' ∷ r)
          (ap (λ n. drop n (h.body ++ k.body)) (sym eight) ∙ drop_front h.body k.body)
      ∙ sym k.prefixed;
  selector = λ t. record {
    body = codes "00000000";
    count = 4;
    prefixed = refl;
    sized = refl;
    digits = refl;
  };
  size-selector = λ t. refl;
}

abbrev metadata : Json
metadata =
    object
      (member (codes "a") (string (codes "x")) (member (codes "b") (string (codes "y")) none_left))

abbrev metadata' : Json
metadata' =
    object
      (member (codes "b") (string (codes "y")) (member (codes "a") (string (codes "x")) none_left))

canonical_json_example : canonical_json (λ t. t) metadata ≡ canonical_json (λ t. t) metadata'
canonical_json_example =
    Order.canonical_json_ignores_order (λ t. t) metadata metadata'
      (Order.objects (Order.swapped (ground arith)))

abbrev declaration : PoGDeclaration
declaration = record {
  agent = codes "0x00000000000000000000000000000000000000aa";
  content_hash = b'0' ∷ b'x' ∷ zeros ++ codes "1";
  input_hash = b'0' ∷ b'x' ∷ zeros ++ codes "2";
  model_id = codes "model";
  runtime_id = codes "runtime";
  process_type = nat 1;
  human_intervention = nat 2;
  pipeline_steps = nat 3;
  declared_at = nat 1700000000;
  nonce = b'0' ∷ b'x' ∷ zeros ++ codes "3";
  metadata_hash = b'0' ∷ b'x' ∷ zeros ++ codes "0";
}

abbrev pub any_text : Text → Bool
any_text t = true

validate_declaration_example :
    (validate_declaration any_text any_text declaration ≡ [])
    ↔ Checks.IsWellFormed any_text any_text declaration
validate_declaration_example = Checks.validate_declaration_iff any_text any_text declaration

abbrev half_n_hex : Text
half_n_hex = codes "7fffffffffffffffffffffffffffffff5d576e7357a4501ddfe92f46681b20a0"

abbrev pub low_s : Text
low_s = b'0' ∷ b'x' ∷ zeros ++ codes "1" ++ half_n_hex ++ codes "1b"

low_s-IsBytes : IsBytes low_s
low_s-IsBytes = record {
  body = drop 2 low_s;
  count = 65;
  prefixed = refl;
  sized = refl;
  digits = refl;
}

decode_aux_example :
    decode_aux hex_bytes (b'0' ∷ b'x' ∷ codes "00000000" ++ drop 2 low_s) ≡ some (single low_s)
unfolding encode_single_aux selector_single
decode_aux_example =
    decode_aux-encode_aux hex_bytes hex_bytes_join (single low_s)
      (b'0' ∷ b'x' ∷ codes "00000000" ++ drop 2 low_s) low_s-IsBytes refl

abbrev high_s : Text
high_s =
    b'0' ∷ b'x' ∷ zeros
    ++ codes "1"
    ++ codes "7fffffffffffffffffffffffffffffff5d576e7357a4501ddfe92f46681b20a1"
    ++ codes "1c"

canonical_not_flipped_example : is_canonical_signature high_s ≡ false
unfolding is_canonical_signature is_signature_text number_at starts_with digits_value hex_digit
canonical_not_flipped_example = Checks.canonical_not_flipped low_s high_s refl refl

abbrev pub lib : Libraries
lib = record {
  viem = bytes;
  erc8263_topic0 = codes "topic";
  decode_event_log = λ l. some (record {
    agent_id_scheme = 1;
    agent_id = codes "id";
    proof_hash = bytes.keccak256 (flatten (codes "0x00" ∷ codes "digest" ∷ []));
    operator = codes "op";
    aux = l.data_of;
  });
  is_address = any_text;
  is_hex = any_text;
  hash_typed_data = λ domain d. codes "digest";
  recover_address = λ digest s. some (codes "0x00000000000000000000000000000000000000aa");
  sha256 = hash64;
  show = λ n. n ∷ [];
}

abbrev pub anchor_log : RpcLog
anchor_log = record {
  address = codes "0xcc";
  topics = codes "topic" ∷ [];
  data_of = selector_batch bytes ++ take 32 zeros;
  block_number = some 5;
  log_index = some 2;
  transaction_hash = some (codes "0xdd");
}

abbrev input : VerifyInput
input = record {
  declaration = declaration;
  signature = low_s;
  domain = record { chain_id = 8453; verifying_contract = codes "0xCC" };
  log = anchor_log;
  block_timestamp = 1700000100;
  merkle_proof = some [];
  content = none;
  resolve_registry_wallet = none;
}

verify_declaration_example :
    ((verify_declaration lib input).valid ≡ true) ↔ Evidence.IsEvidence lib input
verify_declaration_example = Evidence.verify_declaration_iff lib input

abbrev pub chain_receipt : ChainReceipt
chain_receipt = record { success = true; logs = anchor_log ∷ []; block_timestamp = 1700000100 }

verify_from_chain_example :
    (8453 ≡ input.domain.chain_id)
    × (chain_receipt.success ≡ true)
    × (l : RpcLog) × (find_first (index_is 2) chain_receipt.logs ≡ some l)
    × Evidence.IsEvidence lib
        (record input { log = l; block_timestamp = chain_receipt.block_timestamp })
unfolding verify_from_chain verify_declaration check_proof check_signer check_agent_id check_content
    decode_anchor_log decode_aux selector_single selector_batch validate_declaration problems_of
    is_bytes32 has_length utf8_len in_range is_zero_hex verify_merkle_proof climb merkle_leaf
    recover_declaration_signer is_canonical_signature is_signature_text number_at starts_with
    digits_value hex_digit same_hex text_eq to_lower_case
verify_from_chain_example = Evidence.verify_from_chain_sound lib 8453 chain_receipt 2 input refl
