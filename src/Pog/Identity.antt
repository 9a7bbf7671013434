-- ===== src/Pog/Identity.antt =====
-- packages/pog/src/identity.ts: the identity of an agent on chain. The hash and the conversions are
-- viem's, `show` writes a number in decimal.
use res_ex_machina.Common.{ℕ, ◌++◌, Text, codes, to_lower_case}

-- `AgentIdScheme`.
abbrev pub anonymous : ℕ
anonymous = 0

abbrev pub registry : ℕ
registry = 1

abbrev pub uri_hash : ℕ
uri_hash = 2

module _ (keccak256 to_bytes : Text → Text) (show : ℕ → Text) where
  unfoldable pub caip10 : ℕ → Text → Text
  caip10 chain_id agent = codes "eip155:" ++ show chain_id ++ codes ":" ++ to_lower_case agent

  unfoldable pub agent_id_for_key : ℕ → Text → Text
  agent_id_for_key chain_id agent = keccak256 (to_bytes (caip10 chain_id agent))
