-- ===== src/Pog/Declaration/Checks.antt =====
-- What a declaration without problems looks like, and that low-s signatures cannot be flipped.
use res_ex_machina.Common.{
  ◌+◌, ◌*◌, ◌≤◌, ◌≡◌, ◌↔◌, Bool, true, false, List, [], ◌∷◌, Text, arith, not, Bool-cases, All, inl,
  inr,
}
use res_ex_machina.Pog.Declaration.{
  PoGDeclaration, Problem, utf8_len, max_uint64, is_zero_hex, in_range, problems_of, has_length,
  checks, is_bytes32, validate_declaration, secp256k1_half_n, number_at, is_canonical_signature,
}

problems_of-nil_iff :
    (cs : List (Bool × Problem)) → (problems_of cs ≡ []) ↔ All (λ c. c.0 ≡ false) cs
unfolding problems_of
problems_of-nil_iff [] = ground arith
problems_of-nil_iff ((failed, p) ∷ cs) = ground (arith, problems_of-nil_iff cs)

not-false_iff : (b : Bool) → (not b ≡ false) ↔ (b ≡ true)
not-false_iff b = ground arith

has_length_iff : (t : Text) → (has_length t ≡ true) ↔ ((1 ≤ utf8_len t) × (utf8_len t ≤ 128))
unfolding has_length
has_length_iff t = ground arith

module _ (is_address is_hex : Text → Bool) where
  -- A declaration in the form that the specification asks for: its agent is an address, its four
  -- hashes have 32 bytes, its content hash and nonce are not zero, the names of model and runtime
  -- have 1 to 128 bytes in UTF-8, and its numbers are in range.
  pub record IsWellFormed (d : PoGDeclaration) : Type 0 where
    pub agent : is_address d.agent ≡ true
    pub content_hash : is_bytes32 is_address is_hex d.content_hash ≡ true
    pub input_hash : is_bytes32 is_address is_hex d.input_hash ≡ true
    pub nonce : is_bytes32 is_address is_hex d.nonce ≡ true
    pub metadata_hash : is_bytes32 is_address is_hex d.metadata_hash ≡ true
    pub content : is_zero_hex d.content_hash ≡ false
    pub fresh : is_zero_hex d.nonce ≡ false
    pub model : (1 ≤ utf8_len d.model_id) × (utf8_len d.model_id ≤ 128)
    pub runtime : (1 ≤ utf8_len d.runtime_id) × (utf8_len d.runtime_id ≤ 128)
    pub process : in_range 0 3 d.process_type ≡ true
    pub human : in_range 0 5 d.human_intervention ≡ true
    pub steps : in_range 1 65535 d.pipeline_steps ≡ true
    pub time : in_range 0 max_uint64 d.declared_at ≡ true

  IsWellFormed-of_checks :
      (d : PoGDeclaration) → All (λ c. c.0 ≡ false) (checks is_address is_hex d) → IsWellFormed d
  IsWellFormed-of_checks d h = record {
    agent = ground arith;
    content_hash = ground arith;
    input_hash = ground arith;
    nonce = ground arith;
    metadata_hash = ground arith;
    content = ground arith;
    fresh = ground arith;
    model = (has_length_iff d.model_id).0 (ground arith);
    runtime = (has_length_iff d.runtime_id).0 (ground arith);
    process = ground arith;
    human = ground arith;
    steps = ground arith;
    time = ground arith;
  }

  checks_of_well_formed :
      (d : PoGDeclaration) → IsWellFormed d → All (λ c. c.0 ≡ false) (checks is_address is_hex d)
  checks_of_well_formed d w =
      let model = (has_length_iff d.model_id).1 w.model in
      let runtime = (has_length_iff d.runtime_id).1 w.runtime in ground arith

  -- `validateDeclaration` finds no problem exactly when the declaration is well formed.
  pub validate_declaration_iff :
      (d : PoGDeclaration) → (validate_declaration is_address is_hex d ≡ []) ↔ IsWellFormed d
  unfolding validate_declaration
  validate_declaration_iff d =
      let (to, from) = problems_of-nil_iff (checks is_address is_hex d) in
      (λ h. IsWellFormed-of_checks d (to h), λ w. from (checks_of_well_formed d w))

canonical_low : (t : Text) → is_canonical_signature t ≡ true → number_at 66 64 t ≤ secp256k1_half_n
unfolding is_canonical_signature
canonical_low t h = ground arith

-- Of the two signatures with the same r over one message, whose s add up to the order of the curve,
-- at most one is canonical.
pub canonical_not_flipped :
    (a b : Text)
    → is_canonical_signature a ≡ true
    → number_at 66 64 a + number_at 66 64 b ≡ 2 * secp256k1_half_n + 1
    → is_canonical_signature b ≡ false
canonical_not_flipped a b h e = elim (Bool-cases (is_canonical_signature b)) [
  | inl flipped ↦ absurd (omega (arith, canonical_low a h, canonical_low b flipped))
  | inr refused ↦ refused
]
