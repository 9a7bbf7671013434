-- ===== src/Pog/Verify/Evidence.antt =====
-- What a valid result of the verifier rests on.
use res_ex_machina.Common.{
  ℕ, ◌≡◌, ◌↔◌, inl, inr, Bool, true, false, ◌&&◌, ◌||◌, List, [], ◌∷◌, Option, none, some, Text,
  arith, ◌==◌, Option-cases, same_hex, find_first,
}
use res_ex_machina.Pog.Declaration.{Problem, validate_declaration, recover_declaration_signer}
use res_ex_machina.Pog.Declaration.Checks.{IsWellFormed, validate_declaration_iff}
use res_ex_machina.Pog.Identity.{registry, uri_hash, agent_id_for_key}
use res_ex_machina.Pog.Merkle.{verify_merkle_proof}
use res_ex_machina.Pog.Aux.{DecodedAux, single, batch, decode_aux}
use res_ex_machina.Pog.Events.{RpcLog, AnchorEvent, decode_anchor_log}
use res_ex_machina.Pog.Verify.{
  Libraries, VerifyInput, none_found, check_content, check_agent_id, check_signer, check_proof,
  verify_declaration, ChainReceipt, index_is, verify_from_chain, Check, Warning, pass, signer,
  agent_id, proof_hash, signature_in_anchor, merkle, event, contract, aux, declaration,
  registry_warnings,
}

none_found_iff : (ps : List Problem) → (none_found ps ≡ true) ↔ (ps ≡ [])
none_found_iff [] = ground arith
none_found_iff (p ∷ ps) = ground arith

module _ (lib : Libraries) where
  -- An answer that is given, and true.
  abbrev is_yes : Option Bool → Bool
  is_yes (some true) = true
  is_yes _ = false

  -- The anchor names the digest: it is its proof hash and its payload is the signature, or it is in
  -- the tree whose root is the proof hash.
  abbrev pub anchors : VerifyInput → AnchorEvent → DecodedAux → Text → Bool
  anchors input ev (single signature) digest =
      same_hex digest ev.args.proof_hash && same_hex signature input.signature
  anchors input ev (batch bundle_hash) digest = elim input.merkle_proof [
    | none ↦ false
    | some proof ↦
        is_yes
          (verify_merkle_proof lib.viem.keccak256 lib.viem.concat digest proof ev.args.proof_hash)
  ]

  -- The signer of the digest is the agent.
  abbrev pub is_signed : VerifyInput → Text → Bool
  is_signed input digest =
      elim (recover_declaration_signer lib.recover_address digest input.signature) [
        | none ↦ false
        | some s ↦ same_hex s input.declaration.agent
      ]

  -- A single anchor has the scheme of keys and names the agent by the hash of its key, or it has the
  -- scheme of the registry, and then any identifier will do: what the registry says is a warning.
  abbrev pub is_identified : VerifyInput → AnchorEvent → DecodedAux → Bool
  is_identified input ev (batch bundle_hash) = true
  is_identified input ev (single signature) =
      (ev.args.agent_id_scheme == uri_hash
        && same_hex ev.args.agent_id (
            agent_id_for_key lib.viem.keccak256 lib.viem.to_bytes lib.show input.domain.chain_id
              input.declaration.agent))
      || ev.args.agent_id_scheme == registry

  -- The content, if it is given, has the hash that is declared.
  abbrev pub has_content : VerifyInput → Bool
  has_content input = elim input.content [
    | none ↦ true
    | some bytes ↦ same_hex (lib.sha256 bytes) input.declaration.content_hash
  ]

  -- An anchor in a log that shows that the agent signed the declaration.
  pub record IsEvidence (input : VerifyInput) : Type 0 where
    pub event : AnchorEvent
    pub payload : DecodedAux
    pub is_event : decode_anchor_log lib.erc8263_topic0 lib.decode_event_log input.log ≡ some event
    pub from_contract : same_hex event.contract input.domain.verifying_contract ≡ true
    pub is_payload : decode_aux lib.viem event.args.aux ≡ some payload
    pub well_formed : IsWellFormed lib.is_address lib.is_hex input.declaration
    pub anchored :
        anchors input event payload (lib.hash_typed_data input.domain input.declaration) ≡ true
    pub signed : is_signed input (lib.hash_typed_data input.domain input.declaration) ≡ true
    pub identified : is_identified input event payload ≡ true
    pub content : has_content input ≡ true

  check_content_valid :
      (input : VerifyInput) (ev : AnchorEvent) (checks : List Check) (ws : List Warning)
      → (check_content lib input ev checks ws).valid ≡ has_content input
  unfolding check_content
  check_content_valid input ev checks ws = elim (Option-cases input.content) [
    | inl e ↦ ground arith
    | inr (bytes, e) ↦ ground arith
  ]

  check_agent_id_valid :
      (input : VerifyInput) (ev : AnchorEvent) (payload : DecodedAux) (checks : List Check)
      → (check_agent_id lib input ev payload checks).valid
        ≡ is_identified input ev payload && has_content input
  unfolding check_agent_id
  check_agent_id_valid input ev (batch bundle_hash) checks = check_content_valid input ev checks []
  check_agent_id_valid input ev (single signature) checks = ground (
    arith,
    check_content_valid input ev (pass agent_id checks) [],
    check_content_valid input ev (pass agent_id checks) (
        registry_warnings lib input.resolve_registry_wallet ev.args.agent_id
          input.declaration.agent),
  )

  check_signer_valid :
      (input : VerifyInput) (ev : AnchorEvent) (payload : DecodedAux) (digest : Text)
      (checks : List Check)
      → (check_signer lib input ev payload digest checks).valid
        ≡ is_signed input digest && is_identified input ev payload && has_content input
  unfolding check_signer
  check_signer_valid input ev payload digest checks =
      elim (Option-cases (recover_declaration_signer lib.recover_address digest input.signature)) [
        | inl e ↦ ground arith
        | inr (s, e) ↦ ground (arith, check_agent_id_valid input ev payload (pass signer checks))
      ]

  check_proof_valid :
      (input : VerifyInput) (ev : AnchorEvent) (payload : DecodedAux) (digest : Text)
      (checks : List Check)
      → (check_proof lib input ev payload digest checks).valid
        ≡ anchors input ev payload digest
          && is_signed input digest
          && is_identified input ev payload
          && has_content input
  unfolding check_proof
  check_proof_valid input ev (single signature) digest checks = ground (
    arith,
    check_signer_valid input ev (single signature) digest
        (pass signature_in_anchor (pass proof_hash checks)),
  )
  check_proof_valid input ev (batch bundle_hash) digest checks =
      elim (Option-cases input.merkle_proof) [
        | inl e ↦ ground arith
        | inr (proof, e) ↦
            ground
              (arith, check_signer_valid input ev (batch bundle_hash) digest (pass merkle checks))
      ]

  verify_declaration_sound :
      (input : VerifyInput) → (verify_declaration lib input).valid ≡ true → IsEvidence input
  unfolding verify_declaration
  verify_declaration_sound input h =
      elim (Option-cases (decode_anchor_log lib.erc8263_topic0 lib.decode_event_log input.log)) [
        | inl lost ↦ absurd (ground arith)
        | inr (ev, is_event) ↦ elim (Option-cases (decode_aux lib.viem ev.args.aux)) [
          | inl lost ↦ absurd (ground arith)
          | inr (payload, is_payload) ↦
              let digest = lib.hash_typed_data input.domain input.declaration in
              let e =
                check_proof_valid input ev payload digest
                  (pass declaration (pass aux (pass contract (pass event [])))) in
              record {
                event = ev;
                payload = payload;
                is_event = is_event;
                from_contract = ground arith;
                is_payload = is_payload;
                well_formed =
                    (validate_declaration_iff lib.is_address lib.is_hex input.declaration).0 (
                      (none_found_iff
                          (validate_declaration lib.is_address lib.is_hex input.declaration)).0
                        (ground arith));
                anchored = ground arith;
                signed = ground arith;
                identified = ground arith;
                content = ground arith;
              }
        ]
      ]

  verify_declaration_complete :
      (input : VerifyInput) → IsEvidence input → (verify_declaration lib input).valid ≡ true
  unfolding verify_declaration
  verify_declaration_complete input h =
      let digest = lib.hash_typed_data input.domain input.declaration in
      let well =
        (none_found_iff (validate_declaration lib.is_address lib.is_hex input.declaration)).1 (
          (validate_declaration_iff lib.is_address lib.is_hex input.declaration).1 h.well_formed) in
      let e =
        check_proof_valid input h.event h.payload digest
          (pass declaration (pass aux (pass contract (pass event [])))) in
      ground (
        arith, e, well, h.is_event, h.from_contract, h.is_payload, h.anchored, h.signed,
        h.identified, h.content,
      )

  -- A result is valid exactly when there is evidence: the log is an anchor by the contract of the
  -- domain, the declaration is well formed, its digest is what the log anchors, alone or in a
  -- batch, its signature is the agent's, a single anchor has either the scheme of keys, and then the
  -- agent's identifier, or the scheme of the registry with any identifier, and the content, if given,
  -- has the declared hash.
  pub verify_declaration_iff :
      (input : VerifyInput) → ((verify_declaration lib input).valid ≡ true) ↔ IsEvidence input
  verify_declaration_iff input = (verify_declaration_sound input, verify_declaration_complete input)

  -- `verifyFromChain` answers valid only when the client is on the chain of the domain, the
  -- transaction succeeded, and the log that it finds at the given index is evidence.
  pub verify_from_chain_sound :
      (chain_id : ℕ) (receipt : ChainReceipt) (log_index : ℕ) (input : VerifyInput)
      → (verify_from_chain lib chain_id receipt log_index input).valid ≡ true
      → (chain_id ≡ input.domain.chain_id)
        × (receipt.success ≡ true)
        × (l : RpcLog) × (find_first (index_is log_index) receipt.logs ≡ some l)
        × IsEvidence (record input { log = l; block_timestamp = receipt.block_timestamp })
  unfolding verify_from_chain
  verify_from_chain_sound chain_id receipt log_index input h =
      elim (Option-cases (find_first (index_is log_index) receipt.logs)) [
        | inl lost ↦ absurd (ground arith)
        | inr (l, found) ↦ (
          ground arith,
          ground arith,
          l,
          found,
          verify_declaration_sound
              (record input { log = l; block_timestamp = receipt.block_timestamp }) (ground arith),
        )
      ]
