-- ===== src/Pog/Events.antt =====
-- The logs of anchors: `decodeAnchorLog` of packages/pog/src/bindings/erc8263.ts. Decoding the data
-- of a log is viem's; a thrown error is `none`.
use res_ex_machina.Common.{
  ℕ, Bool, false, not, List, [], ◌∷◌, Option, none, some, Text, if◌then◌else◌, same_hex,
}

-- A log as an RPC returns it; the last three are missing while it is pending.
pub record RpcLog : Type 0 where
  pub address : Text
  pub topics : List Text
  pub data_of : Text
  pub block_number : Option ℕ
  pub log_index : Option ℕ
  pub transaction_hash : Option Text

pub record EventArgs : Type 0 where
  pub agent_id_scheme : ℕ
  pub agent_id : Text
  pub proof_hash : Text
  pub operator : Text
  pub aux : Text

pub record AnchorEvent : Type 0 where
  pub contract : Text
  pub args : EventArgs
  pub block_number : ℕ
  pub log_index : ℕ
  pub transaction_hash : Text

abbrev first_is : List Text → Text → Bool
first_is [] t = false
first_is (u ∷ us) t = same_hex u t

module _ (erc8263_topic0 : Text) (decode_event_log : RpcLog → Option EventArgs) where
  unfoldable pub decode_anchor_log : RpcLog → Option AnchorEvent
  decode_anchor_log l =
      if not (first_is l.topics erc8263_topic0) then none else elim (decode_event_log l) [
        | none ↦ none
        | some args ↦ elim l.block_number [
          | none ↦ none
          | some b ↦ elim l.log_index [
            | none ↦ none
            | some i ↦ elim l.transaction_hash [
              | none ↦ none
              | some h ↦ some (record {
                contract = l.address;
                args = args;
                block_number = b;
                log_index = i;
                transaction_hash = h;
              })
            ]
          ]
        ]
      ]
