-- ===== src/V2/Accept/Examination.antt =====
-- What a submission that passes every check satisfies.
use res_ex_machina.Common.{
  ℕ, length, ◌==◌, ◌+◌, ◌/◌, ◌≤◌, ◌≡◌, refl, inl, inr, true, false, List, [], ◌∷◌, some, Text,
  arith, Option-cases, same_hex, to_lower_case,
}
use res_ex_machina.Pog.Declaration.{
  Problem, validate_declaration, is_canonical_signature, recover_declaration_signer,
}
use res_ex_machina.Pog.Declaration.Checks.{IsWellFormed, validate_declaration_iff}
use res_ex_machina.V2.Accept.{
  V2Config, AcceptDeps, Submission, Checked, passed, seconds_of, matches_schema, to_declaration,
  metadata_agrees, examine_submission, examine, none_found, max_future_skew_s,
}

none_found_nil : (ps : List Problem) → none_found ps ≡ true → ps ≡ []
none_found_nil [] h = refl
none_found_nil (p ∷ ps) h = absurd (ground arith)

module _ {Body : Type 0} (deps : AcceptDeps Body) (cfg : V2Config) where
  -- What holds of a checked submission `c` that `body` turned into at time `now`.
  pub record IsChecked (now : ℕ) (body : Body) (c : Checked) : Type 0 where
    pub submission : Submission
    pub is_enabled : cfg.enabled ≡ true
    pub is_configured : cfg.contract ≡ some c.contract
    pub contract_nonempty : (length c.contract == 0) ≡ false
    pub is_submission : deps.shape body ≡ some submission
    pub in_schema : matches_schema submission ≡ true
    pub decl_is : c.decl ≡ to_declaration submission.declaration
    pub signature_is : c.signature ≡ to_lower_case submission.signature
    pub digest_is : c.digest ≡ to_lower_case (deps.hash_typed_data cfg.chain_id c.contract c.decl)
    pub well_formed : IsWellFormed deps.is_address deps.is_hex c.decl
    pub canonical : is_canonical_signature c.signature ≡ true
    pub signer : Text
    pub is_signer :
        recover_declaration_signer deps.recover_address c.digest c.signature ≡ some signer
    pub signer_is_agent : same_hex signer c.decl.agent ≡ true
    pub metadata_is : metadata_agrees deps cfg submission.metadata c.decl ≡ some true
    pub not_ahead : seconds_of submission.declaration.declared_at ≤ now / 1000 + max_future_skew_s

  examine_submission-passed :
      (now : ℕ) (contract : Text) (s : Submission) (c : Checked)
      → examine_submission deps cfg now contract s ≡ passed c
      → (c.decl ≡ to_declaration s.declaration)
        × (c.signature ≡ to_lower_case s.signature)
        × (c.contract ≡ contract)
        × (c.digest
            ≡ to_lower_case
                (deps.hash_typed_data cfg.chain_id contract (to_declaration s.declaration)))
        × (validate_declaration deps.is_address deps.is_hex c.decl ≡ [])
        × (is_canonical_signature c.signature ≡ true)
        × (metadata_agrees deps cfg s.metadata c.decl ≡ some true)
        × (seconds_of s.declaration.declared_at ≤ now / 1000 + max_future_skew_s)
        × (signer : Text) × (recover_declaration_signer deps.recover_address c.digest c.signature
            ≡ some signer)
        × (same_hex signer c.decl.agent ≡ true)
  unfolding examine_submission
  examine_submission-passed now contract s c h =
      let decl = to_declaration s.declaration in
      let digest = to_lower_case (deps.hash_typed_data cfg.chain_id contract decl) in
      let signature = to_lower_case s.signature in
      let well = none_found_nil (validate_declaration deps.is_address deps.is_hex decl) in
      elim (Option-cases (recover_declaration_signer deps.recover_address digest signature)) [
        | inl lost ↦ absurd (ground arith)
        | inr (signer, found) ↦ elim (Option-cases (metadata_agrees deps cfg s.metadata decl)) [
          | inl lost ↦ absurd (ground arith)
          | inr (false, e) ↦ absurd (ground arith)
          | inr (true, e) ↦ (
            ground arith,
            ground arith,
            ground arith,
            ground arith,
            ground arith,
            ground arith,
            ground arith,
            ground arith,
            signer,
            ground arith,
            ground arith,
          )
        ]
      ]

  -- A submission passes the checks only in an enabled and configured service, from a body in the
  -- schema, with a well-formed declaration, a canonical signature over its digest by the agent
  -- itself, metadata of the hash that it names, and a time at most 300 seconds ahead.
  pub examine-IsChecked :
      (now : ℕ) (body : Body) (c : Checked)
      → examine deps cfg now body ≡ passed c
      → IsChecked now body c
  unfolding examine
  examine-IsChecked now body c h = elim (Option-cases cfg.contract) [
    | inl missing ↦ absurd (ground arith)
    | inr (contract, configured) ↦ elim (Option-cases (deps.shape body)) [
      | inl unread ↦ absurd (ground arith)
      | inr (s, read) ↦
          let matched : matches_schema s ≡ true = ground arith in
          let (e1, e2, e3, e4, e5, e6, e7, e8, signer, e9, e10) =
            examine_submission-passed now contract s c (ground arith) in
          record {
            submission = s;
            is_enabled = ground arith;
            is_configured = ground arith;
            contract_nonempty = ground arith;
            is_submission = read;
            in_schema = matched;
            decl_is = e1;
            signature_is = e2;
            digest_is = ground arith;
            well_formed = (validate_declaration_iff deps.is_address deps.is_hex c.decl).0 e5;
            canonical = e6;
            signer = signer;
            is_signer = e9;
            signer_is_agent = e10;
            metadata_is = e7;
            not_ahead = e8;
          }
    ]
  ]

  examine_submission-later :
      (now later : ℕ) (contract : Text) (s : Submission) (c : Checked)
      → now ≤ later
      → examine_submission deps cfg now contract s ≡ passed c
      → examine_submission deps cfg later contract s ≡ passed c
  unfolding examine_submission
  examine_submission-later now later contract s c after h =
      let decl = to_declaration s.declaration in
      let digest = to_lower_case (deps.hash_typed_data cfg.chain_id contract decl) in
      let signature = to_lower_case s.signature in
      elim (Option-cases (recover_declaration_signer deps.recover_address digest signature)) [
        | inl lost ↦ absurd (ground arith)
        | inr (signer, found) ↦ elim (Option-cases (metadata_agrees deps cfg s.metadata decl)) [
          | inl lost ↦ absurd (ground arith)
          | inr (false, e) ↦ absurd (ground arith)
          | inr (true, e) ↦ ground arith
        ]
      ]

  -- A submission that passes the checks passes them at any later time, with the same result.
  pub examine-later :
      (now later : ℕ) (body : Body) (c : Checked)
      → now ≤ later
      → examine deps cfg now body ≡ passed c
      → examine deps cfg later body ≡ passed c
  unfolding examine
  examine-later now later body c after h = elim (Option-cases cfg.contract) [
    | inl missing ↦ absurd (ground arith)
    | inr (contract, configured) ↦ elim (Option-cases (deps.shape body)) [
      | inl unread ↦ absurd (ground arith)
      | inr (s, read) ↦ ground (arith, examine_submission-later now later contract s c after)
    ]
  ]
