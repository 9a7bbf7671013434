-- ===== src/V2/Receipt/Trust.antt =====
-- `verifyReceipt` of packages/pog/src/receipt.ts. A client is what an RPC answers; dialling an RPC,
-- the log before one is found and the libraries are arguments.
use res_ex_machina.Common.{
  ℕ, length, ◌≡◌, inl, inr, Bool, true, false, [], Option, none, some, Text, codes, arith, ◌==◌,
  if◌then◌else◌, find_first, Option-cases,
}
use res_ex_machina.Pog.Declaration.{Value}
use res_ex_machina.Pog.Events.{RpcLog}
use res_ex_machina.Pog.Verify.{
  Libraries, VerifyInput, VerifyResult, ChainReceipt, index_is, verify_from_chain, fail, chain,
}
use res_ex_machina.Pog.Verify.Evidence.{IsEvidence, verify_from_chain_sound}
use res_ex_machina.V2.Receipt.{Receipt, Locator, ParsedReceipt, parse_receipt}

-- `get_receipt` is `none` where `getTransactionReceipt` throws.
pub record Client : Type 0 where
  pub chain_id : ℕ
  pub get_receipt : Text → Option ChainReceipt

pub record VerifyOptions : Type 0 where
  pub client : Option Client
  pub rpc_url : Option Text
  pub content : Option Text

pub data Verdict : Type 0 where
  not_anchored thrown : Verdict
  verified : VerifyResult → Verdict

-- `DEFAULT_RPC`.
unfoldable pub default_rpc : ℕ → Option Text
default_rpc n =
    if n == 8453
    then some (codes "https://mainnet.base.org")
    else if n == 84532
    then some (codes "https://sepolia.base.org")
    else if n == 31337
    then some (codes "http://127.0.0.1:8545")
    else none

-- The client of the options, or one for their RPC or for the known one of the chain.
unfoldable pub choose_client : (Text → Client) → VerifyOptions → ℕ → Option Client
unfolding default_rpc
choose_client dial opts chain_id = elim opts.client [
  | some c ↦ some c
  | none ↦ elim opts.rpc_url [
    | some url ↦ if length url == 0 then none else some (dial url)
    | none ↦ elim (default_rpc chain_id) [ some url ↦ some (dial url) | none ↦ none ]
  ]
]

-- The input of `verifyFromChain`, which puts the log that it finds in the place of `unread`.
abbrev pub input_of : RpcLog → Option Text → ParsedReceipt → VerifyInput
input_of unread content p = record {
  declaration = p.declaration;
  signature = p.signature;
  domain = p.domain;
  log = unread;
  block_timestamp = 0;
  merkle_proof = none;
  content = content;
  resolve_registry_wallet = none;
}

module _ (big_int : Text → Option Value) (lib : Libraries) (unread : RpcLog) where
  -- `verifyFromChain`, which asks for the receipt once the chain is the right one.
  unfoldable pub ask_chain : Client → Locator → VerifyInput → Verdict
  ask_chain client l input = elim (client.get_receipt l.transaction_hash) [
    | none ↦ if client.chain_id == input.domain.chain_id then thrown else verified (fail chain [])
    | some receipt ↦ verified (verify_from_chain lib client.chain_id receipt l.log_index input)
  ]

  unfoldable pub verify_receipt : (Text → Client) → VerifyOptions → Receipt → Verdict
  unfolding choose_client ask_chain
  verify_receipt dial opts r = elim (parse_receipt big_int r) [
    | none ↦ thrown
    | some p ↦ elim p.locator [
      | none ↦ not_anchored
      | some l ↦ elim (choose_client dial opts p.domain.chain_id) [
        | none ↦ thrown
        | some client ↦ ask_chain client l (input_of unread opts.content p)
      ]
    ]
  ]

  -- What the chain shows of a receipt, by a client.
  pub record IsShown (opts : VerifyOptions) (p : ParsedReceipt) (l : Locator) (client : Client)
      : Type 0 where
    pub same_chain : client.chain_id ≡ p.domain.chain_id
    pub receipt : ChainReceipt
    pub found_receipt : client.get_receipt l.transaction_hash ≡ some receipt
    pub success : receipt.success ≡ true
    pub log : RpcLog
    pub found_log : find_first (index_is l.log_index) receipt.logs ≡ some log
    pub evidence : IsEvidence lib (record (input_of unread opts.content p) {
      log = log;
      block_timestamp = receipt.block_timestamp;
    })

  abbrev pub is_valid : Verdict → Bool
  is_valid (verified v) = v.valid
  is_valid v = false

  ask_chain_sound :
      (opts : VerifyOptions) (p : ParsedReceipt) (l : Locator) (client : Client)
      → is_valid (ask_chain client l (input_of unread opts.content p)) ≡ true
      → IsShown opts p l client
  unfolding ask_chain
  ask_chain_sound opts p l client h = elim (Option-cases (client.get_receipt l.transaction_hash)) [
    | inl e ↦ absurd (ground (arith, e))
    | inr (receipt, e) ↦
        let (c, s, log, f, w) =
          verify_from_chain_sound lib client.chain_id receipt l.log_index
            (input_of unread opts.content p) (ground (arith, e)) in
        record {
          same_chain = c;
          receipt = receipt;
          found_receipt = e;
          success = s;
          log = log;
          found_log = f;
          evidence = w;
        }
  ]

  -- `verifyReceipt` answers valid only for a receipt that parses and has a locator, by the client
  -- that the options or its chain choose, when that client is on the chain of the receipt's domain
  -- and the log at the locator, in a successful transaction, is evidence for its declaration,
  -- signature and domain. Nothing else that the receipt says is trusted.
  pub verify_receipt_sound :
      (dial : Text → Client) (opts : VerifyOptions) (r : Receipt)
      → is_valid (verify_receipt dial opts r) ≡ true
      → (p : ParsedReceipt) × (parse_receipt big_int r ≡ some p)
        × (l : Locator) × (p.locator ≡ some l)
        × (client : Client) × (choose_client dial opts p.domain.chain_id ≡ some client)
        × IsShown opts p l client
  unfolding verify_receipt
  verify_receipt_sound dial opts r h = elim (Option-cases (parse_receipt big_int r)) [
    | inl e ↦ absurd (ground (arith, e))
    | inr (p, e) ↦ elim (Option-cases p.locator) [
      | inl n ↦ absurd (ground (arith, e, n))
      | inr (l, n) ↦ elim (Option-cases (choose_client dial opts p.domain.chain_id)) [
        | inl c ↦ absurd (ground (arith, e, n, c))
        | inr (client, c) ↦
            (p, e, l, n, client, c, ask_chain_sound opts p l client (ground (arith, e, n, c)))
      ]
    ]
  ]
