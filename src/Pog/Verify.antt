-- ===== src/Pog/Verify.antt =====
-- packages/pog/src/verify.ts. What viem computes and
-- what the chain answers are arguments; an error thrown by one of them is `none`. The sentence that a valid result
-- carries is left out.
pub mod Evidence
use res_ex_machina.Common.{
  ℕ, ◌+◌, Bool, true, false, not, ◌&&◌, List, [], ◌∷◌, ◌++◌, Option, none, some, Text, leb, ltb,
  ◌==◌, if◌then◌else◌, find_first, same_hex, is_some,
}
use res_ex_machina.Pog.Declaration.{
  Value, nat, PoGDeclaration, Problem, validate_declaration, recover_declaration_signer,
}
use res_ex_machina.Pog.Identity.{registry, uri_hash, agent_id_for_key}
use res_ex_machina.Pog.Merkle.{verify_merkle_proof}
use res_ex_machina.Pog.Events.{RpcLog, EventArgs, AnchorEvent, decode_anchor_log}
use res_ex_machina.Pog.Aux.{Viem, DecodedAux, single, batch, decode_aux}

pub record PoGDomain : Type 0 where
  pub chain_id : ℕ
  pub verifying_contract : Text

pub record Libraries : Type 0 where
  pub viem : Viem
  pub erc8263_topic0 : Text
  pub decode_event_log : RpcLog → Option EventArgs
  pub is_address : Text → Bool
  pub is_hex : Text → Bool
  pub hash_typed_data : PoGDomain → PoGDeclaration → Text
  pub recover_address : Text → Text → Option Text
  pub sha256 : Text → Text
  pub show : ℕ → Text

pub data CheckName : Type 0 where
  event contract aux declaration proof_hash signature_in_anchor merkle signer agent_id content :
      CheckName
  chain log tx : CheckName

pub data Warning : Type 0 where
  registry_not_resolved registry_binds_another declared_after_block : Warning

pub record Check : Type 0 where
  pub name : CheckName
  pub ok : Bool

pub record VerifyResult : Type 0 where
  pub valid : Bool
  pub checks : List Check
  pub warnings : List Warning
  pub anchor : Option AnchorEvent

-- `resolve_registry_wallet` answers `none` for no wallet.
pub record VerifyInput : Type 0 where
  pub declaration : PoGDeclaration
  pub signature : Text
  pub domain : PoGDomain
  pub log : RpcLog
  pub block_timestamp : ℕ
  pub merkle_proof : Option (List Text)
  pub content : Option Text
  pub resolve_registry_wallet : Option (Text → Option Text)

-- `add(name, true)`.
abbrev pub pass : CheckName → List Check → List Check
pass name checks = checks ++ record { name = name; ok = true } ∷ []

-- `add(name, false); return fail()`.
abbrev pub fail : CheckName → List Check → VerifyResult
fail name checks = record {
  valid = false;
  checks = checks ++ record { name = name; ok = false } ∷ [];
  warnings = [];
  anchor = none;
}

-- An error thrown by a check leaves no result; here it is one that is not valid, with the checks
-- made so far.
abbrev pub thrown : List Check → VerifyResult
thrown checks = record { valid = false; checks = checks; warnings = []; anchor = none }

abbrev none_found : List Problem → Bool
none_found [] = true
none_found (p ∷ ps) = false

-- `declaredAt` is after the block's time with the skew that is allowed.
abbrev pub is_after : Value → ℕ → Bool
is_after (nat n) limit = ltb limit n
is_after v limit = false

module _ (lib : Libraries) where
  -- The wallet that the registry binds, against the agent.
  unfoldable pub registry_warnings : Option (Text → Option Text) → Text → Text → List Warning
  registry_warnings none id agent = registry_not_resolved ∷ []
  registry_warnings (some resolve) id agent = elim (resolve id) [
    | none ↦ registry_binds_another ∷ []
    | some w ↦ if same_hex w agent then [] else registry_binds_another ∷ []
  ]

  -- From the warning on `declaredAt` to the end.
  unfoldable pub check_content :
      VerifyInput → AnchorEvent → List Check → List Warning → VerifyResult
  check_content input ev checks warnings =
      let late =
        if is_after input.declaration.declared_at (input.block_timestamp + 300)
        then declared_after_block ∷ []
        else [] in
      elim input.content [
        | none ↦ record {
          valid = true;
          checks = checks;
          warnings = warnings ++ late;
          anchor = some ev;
        }
        | some bytes ↦
            if same_hex (lib.sha256 bytes) input.declaration.content_hash
            then record {
              valid = true;
              checks = pass content checks;
              warnings = warnings ++ late;
              anchor = some ev;
            }
            else record (fail content checks) { warnings = warnings ++ late }
      ]

  -- The identity of the agent, for an anchor of a single declaration.
  unfoldable pub check_agent_id : VerifyInput → AnchorEvent → DecodedAux → List Check → VerifyResult
  check_agent_id input ev (batch bundle_hash) checks = check_content input ev checks []
  check_agent_id input ev (single signature) checks =
      let d = input.declaration in
      let key =
        agent_id_for_key lib.viem.keccak256 lib.viem.to_bytes lib.show input.domain.chain_id
          d.agent in
      if ev.args.agent_id_scheme == uri_hash
      then (if same_hex ev.args.agent_id key
          then check_content input ev (pass agent_id checks) []
          else fail agent_id checks)
      else if ev.args.agent_id_scheme == registry
      then check_content input ev (pass agent_id checks)
          (registry_warnings input.resolve_registry_wallet ev.args.agent_id d.agent)
      else fail agent_id checks

  unfoldable pub check_signer :
      VerifyInput → AnchorEvent → DecodedAux → Text → List Check → VerifyResult
  check_signer input ev decoded digest checks =
      elim (recover_declaration_signer lib.recover_address digest input.signature) [
        | none ↦ fail signer checks
        | some s ↦
            if same_hex s input.declaration.agent
            then check_agent_id input ev decoded (pass signer checks)
            else fail signer checks
      ]

  -- The digest is what the event anchors, alone or in a batch.
  unfoldable pub check_proof :
      VerifyInput → AnchorEvent → DecodedAux → Text → List Check → VerifyResult
  check_proof input ev (single signature) digest checks =
      if not (same_hex digest ev.args.proof_hash)
      then fail proof_hash checks
      else if not (same_hex signature input.signature)
      then fail signature_in_anchor (pass proof_hash checks)
      else check_signer input ev (single signature) digest
          (pass signature_in_anchor (pass proof_hash checks))
  check_proof input ev (batch bundle_hash) digest checks = elim input.merkle_proof [
    | none ↦ fail merkle checks
    | some proof ↦
        elim (verify_merkle_proof lib.viem.keccak256 lib.viem.concat digest proof
          ev.args.proof_hash) [
            | none ↦ thrown checks
            | some false ↦ fail merkle checks
            | some true ↦ check_signer input ev (batch bundle_hash) digest (pass merkle checks)
          ]
  ]

  unfoldable pub verify_declaration : VerifyInput → VerifyResult
  verify_declaration input =
      elim (decode_anchor_log lib.erc8263_topic0 lib.decode_event_log input.log) [
        | none ↦ fail event []
        | some ev ↦
            if not (same_hex ev.contract input.domain.verifying_contract)
            then fail contract (pass event [])
            else elim (decode_aux lib.viem ev.args.aux) [
              | none ↦ fail aux (pass contract (pass event []))
              | some decoded ↦
                  if not
                    (none_found (validate_declaration lib.is_address lib.is_hex input.declaration))
                  then fail declaration (pass aux (pass contract (pass event [])))
                  else check_proof input ev decoded
                      (lib.hash_typed_data input.domain input.declaration)
                      (pass declaration (pass aux (pass contract (pass event []))))
            ]
      ]

-- The receipt of a transaction, as an RPC returns it.
pub record ChainReceipt : Type 0 where
  pub success : Bool
  pub logs : List RpcLog
  pub block_timestamp : ℕ

abbrev pub index_is : ℕ → RpcLog → Bool
index_is i l = elim l.log_index [ none ↦ false | some j ↦ j == i ]

-- `verifyFromChain`, for a client on a chain with a receipt; `input` holds the rest, and its log and
-- time are not read.
unfoldable pub verify_from_chain : Libraries → ℕ → ChainReceipt → ℕ → VerifyInput → VerifyResult
verify_from_chain lib chain_id receipt log_index input =
    if not (chain_id == input.domain.chain_id)
    then fail chain []
    else elim (find_first (index_is log_index) receipt.logs) [
      | none ↦ fail log []
      | some l ↦
          if not receipt.success
          then fail tx []
          else verify_declaration lib
              (record input { log = l; block_timestamp = receipt.block_timestamp })
    ]
