-- ===== src/V2/Receipt.antt =====
-- src/v2/receipt.ts, the route that answers it in src/routes/v2.ts, the columns that it reads of a
-- row, and packages/pog/src/receipt.ts. A receipt is an object whose fields have the types that
-- `toReceipt` gives them; the sentences in it stand for what they name. A thrown error is `none`.
pub mod Parsing
pub mod Trust
pub mod Serving
use res_ex_machina.Common.{
  ℕ, Bool, true, false, not, ◌||◌, List, [], ◌∷◌, Option, none, some, Text, codes, ◌==◌,
  if◌then◌else◌, text_eq, to_lower_case, map_get, is_some,
}
use res_ex_machina.Pog.Content.{Members}
use res_ex_machina.Pog.Declaration.{Value, PoGDeclaration}
use res_ex_machina.Pog.Events.{RpcLog}
use res_ex_machina.Pog.Verify.{
  PoGDomain, Libraries, VerifyInput, VerifyResult, ChainReceipt, verify_from_chain, fail, chain,
}
use res_ex_machina.V2.Store.{DeclState, anchored, DbDeclaration, Db, get_by_digest}
use res_ex_machina.V2.Accept.{
  SubmittedDeclaration, DeclaredAt, digits, number, seconds_of, is_hex_text,
}

-- The column `declaration`, and a declaration in a receipt.
pub record DeclarationJson : Type 0 where
  pub agent : Text
  pub content_hash : Text
  pub input_hash : Text
  pub model_id : Text
  pub runtime_id : Text
  pub process_type : Value
  pub human_intervention : Value
  pub pipeline_steps : Value
  pub declared_at : Option DeclaredAt
  pub nonce : Text
  pub metadata_hash : Text

-- What `acceptDeclaration` stores in the column, for `toString` of a number.
unfoldable pub stored_declaration : (ℕ → Text) → SubmittedDeclaration → DeclarationJson
stored_declaration show d = record {
  agent = to_lower_case d.agent;
  content_hash = d.content_hash;
  input_hash = d.input_hash;
  model_id = d.model_id;
  runtime_id = d.runtime_id;
  process_type = d.process_type;
  human_intervention = d.human_intervention;
  pipeline_steps = d.pipeline_steps;
  declared_at = some (digits (show (seconds_of d.declared_at)));
  nonce = d.nonce;
  metadata_hash = d.metadata_hash;
}

-- The columns of a row that hold JSON.
pub record Columns : Type 0 where
  pub declaration : DeclarationJson
  pub metadata : Option Members

pub record ReceiptDomain : Type 0 where
  pub name : Text
  pub version : Text
  pub chain_id : ℕ
  pub verifying_contract : Text

pub record ReceiptAnchor : Type 0 where
  pub chain_id : ℕ
  pub contract : Text
  pub transaction_hash : Text
  pub log_index : ℕ
  pub block_number : Option Text
  pub block_time : Option Text
  pub agent_id_scheme : ℕ
  pub agent_id : Text

pub record Statement : Type 0 where
  pub agent : Text
  pub block : Option ℕ
  pub chain_id : ℕ

pub record Receipt : Type 0 where
  pub profile : Option Text
  pub id : Text
  pub digest : Text
  pub state : DeclState
  pub declaration : Option DeclarationJson
  pub signature : Text
  pub metadata : Option Members
  pub domain : Option ReceiptDomain
  pub anchor : Option ReceiptAnchor
  pub statement : Option Statement

-- The hash of the transaction and the index of the log, when `anchored` holds.
unfoldable pub anchored_at : DbDeclaration → Option (Text × ℕ)
anchored_at row = elim row.state [
  | anchored ↦ elim row.anchor_tx_hash [
    | none ↦ none
    | some tx ↦ elim row.anchor_log_index [ none ↦ none | some i ↦ some (tx, i) ]
  ]
  | _ ↦ none
]

abbrev pub map_value {ℓ ℓ'} : {A : Type ℓ} {B : Type ℓ'} → (A → B) → Option A → Option B
map_value f none = none
map_value f (some x) = some (f x)

-- `show` and `iso` are `toString` of a number and `toISOString` of a time.
unfoldable pub to_receipt : (ℕ → Text) → (ℕ → Text) → DbDeclaration → Columns → Receipt
unfolding anchored_at
to_receipt show iso row columns = record {
  profile = some (codes "rxm-pog-v2");
  id = row.id;
  digest = row.digest;
  state = row.state;
  declaration = some columns.declaration;
  signature = row.signature;
  metadata = columns.metadata;
  domain = some (record {
    name = codes "ResExMachina PoG";
    version = codes "2";
    chain_id = row.chain_id;
    verifying_contract = row.contract;
  });
  anchor =
      map_value
        (λ (p : Text × ℕ). record {
          chain_id = row.chain_id;
          contract = row.contract;
          transaction_hash = p.0;
          log_index = p.1;
          block_number = map_value show row.anchor_block;
          block_time = map_value iso row.anchor_block_time;
          agent_id_scheme = row.agent_id_scheme;
          agent_id = row.agent_id;
        })
        (anchored_at row);
  statement =
      map_value
        (λ (p : Text × ℕ). record {
          agent = columns.declaration.agent;
          block = row.anchor_block;
          chain_id = row.chain_id;
        })
        (anchored_at row);
}

pub data Answer : Type 0 where
  invalid_digest declaration_not_found : Answer
  receipt : Receipt → Answer

-- `GET /declarations/:digest`, with the columns of each row by its id.
unfoldable pub get_declaration : (ℕ → Text) → (ℕ → Text) → (Text → Columns) → Text → Db → Answer
get_declaration show iso columns digest db =
    if not (is_hex_text 64 digest) then invalid_digest else elim (get_by_digest digest db) [
      | none ↦ declaration_not_found
      | some row ↦ receipt (to_receipt show iso row (columns row.id))
    ]

pub record Locator : Type 0 where
  pub transaction_hash : Text
  pub log_index : ℕ

pub record ParsedReceipt : Type 0 where
  pub declaration : PoGDeclaration
  pub signature : Text
  pub domain : PoGDomain
  pub locator : Option Locator

-- `BigInt` of what the JSON has; `big_int` is `BigInt` of a text.
unfoldable pub big_int_of : (Text → Option Value) → DeclaredAt → Option Value
big_int_of big_int (digits t) = big_int t
big_int_of big_int (number n) = some (Value.nat n)

-- `{ ...d, agent, declaredAt: BigInt(d.declaredAt) }`.
unfoldable pub parse_declaration : (Text → Option Value) → DeclarationJson → Option PoGDeclaration
parse_declaration big_int d = elim d.declared_at [
  | none ↦ none
  | some at ↦
      map_value
        (λ v. record {
          agent = d.agent;
          content_hash = d.content_hash;
          input_hash = d.input_hash;
          model_id = d.model_id;
          runtime_id = d.runtime_id;
          process_type = d.process_type;
          human_intervention = d.human_intervention;
          pipeline_steps = d.pipeline_steps;
          declared_at = v;
          nonce = d.nonce;
          metadata_hash = d.metadata_hash;
        })
        (big_int_of big_int at)
]

-- The field is there and is this text.
abbrev is_text : Text → Option Text → Bool
is_text t none = false
is_text t (some u) = text_eq u t

unfoldable pub parse_receipt : (Text → Option Value) → Receipt → Option ParsedReceipt
parse_receipt big_int r =
    if not (is_text (codes "rxm-pog-v2") r.profile) then none else elim r.declaration [
      | none ↦ none
      | some d ↦ elim r.domain [
        | none ↦ none
        | some dom ↦
            if not (text_eq dom.name (codes "ResExMachina PoG"))
              || not (text_eq dom.version (codes "2"))
            then none
            else map_value
                (λ declaration. record {
                  declaration = declaration;
                  signature = r.signature;
                  domain = record {
                    chain_id = dom.chain_id;
                    verifying_contract = dom.verifying_contract;
                  };
                  locator =
                      map_value
                        (λ (a : ReceiptAnchor). record {
                          transaction_hash = a.transaction_hash;
                          log_index = a.log_index;
                        })
                        r.anchor;
                })
                (parse_declaration big_int d)
      ]
    ]
