-- ===== src/Pog/Declaration.antt =====
-- packages/pog/src/types.ts, validate.ts and eip712.ts: declarations, their structural checks, and
-- the form of a signature. `isAddress` and `isHex` are viem's.
pub mod Checks
use res_ex_machina.Common.{
  ℕ, ◌+◌, ◌-◌, ◌*◌, ◌^◌, ◌/◌, Bool, true, false, not, ◌&&◌, ◌||◌, List, [], ◌∷◌, ◌++◌, Text, codes,
  leb, ltb, ◌==◌, Option, none, if◌then◌else◌, length, take, drop, all_of, starts_with,
}
use res_ex_machina.Pog.Hex.{digits_value, is_hex_digit}

-- A value that should be a whole number: one, a negative one, or anything else.
pub data Value : Type 0 where
  nat : ℕ → Value
  negative not_integer : Value

pub record PoGDeclaration : Type 0 where
  pub agent : Text
  pub content_hash : Text
  pub input_hash : Text
  pub model_id : Text
  pub runtime_id : Text
  pub process_type : Value
  pub human_intervention : Value
  pub pipeline_steps : Value
  pub declared_at : Value
  pub nonce : Text
  pub metadata_hash : Text

pub data Field : Type 0 where
  agent content_hash input_hash model_id runtime_id process_type human_intervention : Field
  pipeline_steps declared_at nonce metadata_hash : Field

pub data Problem : Type 0 where
  not_address not_bytes32 is_zero bad_length out_of_range : Field → Problem

abbrev is_high : ℕ → Bool
is_high c = leb 0xd800 c && leb c 0xdbff

abbrev is_low : ℕ → Bool
is_low c = leb 0xdc00 c && leb c 0xdfff

-- The bytes of one code unit that is no half of a pair; a lone surrogate becomes U+FFFD.
abbrev unit_len : ℕ → ℕ
unit_len c = if ltb c 0x80 then 1 else if ltb c 0x800 then 2 else 3

-- The length in UTF-8 of a text of UTF-16 code units.
unfoldable pub utf8_len : Text → ℕ
utf8_len [] = 0
utf8_len (c ∷ []) = unit_len c
utf8_len (c ∷ d ∷ s) =
    let pair = 4 + utf8_len s in
    let unit = unit_len c + utf8_len (d ∷ s) in if is_high c && is_low d then pair else unit

abbrev pub max_uint64 : ℕ
max_uint64 = 2 ^ 64 - 1

-- `/^0x0+$/`.
unfoldable pub is_zero_hex : Text → Bool
is_zero_hex (a ∷ b ∷ c ∷ s) = a == b'0' && b == b'x' && c == b'0' && all_of (λ d. d == b'0') s
is_zero_hex s = false

-- A whole number between two bounds.
unfoldable pub in_range : ℕ → ℕ → Value → Bool
in_range lo hi (nat n) = leb lo n && leb n hi
in_range lo hi v = false

-- `n < 1 || n > 128` does not hold of the length.
unfoldable pub has_length : Text → Bool
has_length t = not (ltb (utf8_len t) 1 || ltb 128 (utf8_len t))

-- The problems whose test is true, in their order.
unfoldable pub problems_of : List (Bool × Problem) → List Problem
problems_of [] = []
problems_of ((failed, p) ∷ checks) =
    let rest = problems_of checks in if failed then p ∷ rest else rest

module _ (is_address is_hex : Text → Bool) where
  unfoldable pub is_bytes32 : Text → Bool
  is_bytes32 v = is_hex v && length v == 66

  abbrev pub checks : PoGDeclaration → List (Bool × Problem)
  checks d =
      (not (is_address d.agent), not_address agent)
      ∷ (not (is_bytes32 d.content_hash), not_bytes32 content_hash)
      ∷ (not (is_bytes32 d.input_hash), not_bytes32 input_hash)
      ∷ (not (is_bytes32 d.nonce), not_bytes32 nonce)
      ∷ (not (is_bytes32 d.metadata_hash), not_bytes32 metadata_hash)
      ∷ (is_bytes32 d.content_hash && is_zero_hex d.content_hash, is_zero content_hash)
      ∷ (is_bytes32 d.nonce && is_zero_hex d.nonce, is_zero nonce)
      ∷ (not (has_length d.model_id), bad_length model_id)
      ∷ (not (has_length d.runtime_id), bad_length runtime_id)
      ∷ (not (in_range 0 3 d.process_type), out_of_range process_type)
      ∷ (not (in_range 0 5 d.human_intervention), out_of_range human_intervention)
      ∷ (not (in_range 1 65535 d.pipeline_steps), out_of_range pipeline_steps)
      ∷ (not (in_range 0 max_uint64 d.declared_at), out_of_range declared_at)
      ∷ []

  unfoldable pub validate_declaration : PoGDeclaration → List Problem
  unfolding problems_of
  validate_declaration d = problems_of (checks d)

abbrev pub secp256k1_half_n : ℕ
secp256k1_half_n = 0x7fffffffffffffffffffffffffffffff5d576e7357a4501ddfe92f46681b20a0

-- The number in the text between two positions, read in base 16.
unfoldable pub number_at : ℕ → ℕ → Text → ℕ
number_at start len t = digits_value 0 (take len (drop start t))

-- `/^0x[0-9a-fA-F]{130}$/`.
unfoldable pub is_signature_text : Text → Bool
is_signature_text t =
    starts_with (codes "0x") t && length t == 132 && all_of is_hex_digit (drop 2 t)

unfoldable pub is_canonical_signature : Text → Bool
is_canonical_signature signature =
    let s = number_at 66 64 signature in
    let v = number_at 130 2 signature in
    if not (is_signature_text signature)
    then false
    else ltb 0 s && leb s secp256k1_half_n && (v == 27 || v == 28)

-- A thrown error is `none`; `recover_address` is viem's.
unfoldable pub recover_declaration_signer : (Text → Text → Option Text) → Text → Text → Option Text
recover_declaration_signer recover_address digest signature =
    if is_canonical_signature signature then recover_address digest signature else none
