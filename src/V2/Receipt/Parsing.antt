-- ===== src/V2/Receipt/Parsing.antt =====
-- What a receipt that the service answers gives back to its holder.
use res_ex_machina.Common.{
  ℕ, ◌≡◌, refl, ap, ◌∙◌, ◌↔◌, Option, none, some, Text, arith, text_eq, to_lower_case,
}
use res_ex_machina.Pog.Declaration.{Value, PoGDeclaration}
use res_ex_machina.V2.Store.{anchored, DbDeclaration}
use res_ex_machina.V2.Accept.{SubmittedDeclaration, to_declaration, seconds_of}
use res_ex_machina.V2.Receipt.{
  Columns, stored_declaration, anchored_at, map_value, to_receipt, Locator, ReceiptAnchor,
  ParsedReceipt, big_int_of, parse_declaration, parse_receipt,
}

-- Texts of hashes in lower case.
abbrev pub with_lower_hashes : PoGDeclaration → PoGDeclaration
with_lower_hashes d = record d {
  content_hash = to_lower_case d.content_hash;
  input_hash = to_lower_case d.input_hash;
  nonce = to_lower_case d.nonce;
  metadata_hash = to_lower_case d.metadata_hash;
}

-- The row says that it is anchored, and where.
abbrev pub IsAnchoredAt : DbDeclaration → Locator → Type 0
IsAnchoredAt row l =
    (row.state ≡ anchored)
    × (row.anchor_tx_hash ≡ some l.transaction_hash)
    × (row.anchor_log_index ≡ some l.log_index)

abbrev locator_of : DbDeclaration → Option Locator
unfolding anchored_at
locator_of row =
    map_value (λ (p : Text × ℕ). record { transaction_hash = p.0; log_index = p.1 })
      (anchored_at row)

locator_of_iff :
    (row : DbDeclaration) (l : Locator) → (locator_of row ≡ some l) ↔ IsAnchoredAt row l
unfolding anchored_at
locator_of_iff row l = (λ h. ground (arith, h), λ h. ground (arith, h.0, h.1, h.2))

map_value-map_value {ℓ ℓ' ℓ''} :
    {A : Type ℓ} {B : Type ℓ'} {C : Type ℓ''} (g : B → C) (f : A → B) (o : Option A)
    → map_value g (map_value f o) ≡ map_value (λ x. g (f x)) o
map_value-map_value g f none = refl
map_value-map_value g f (some x) = refl

read_anchor-to_receipt :
    (show iso : ℕ → Text) (row : DbDeclaration) (columns : Columns)
    → map_value
        (λ (a : ReceiptAnchor). record {
          transaction_hash = a.transaction_hash;
          log_index = a.log_index;
        })
        (to_receipt show iso row columns).anchor
      ≡ locator_of row
unfolding to_receipt anchored_at
read_anchor-to_receipt show iso row columns = map_value-map_value _ _ (anchored_at row)

-- What the holder reads of a declaration that the service stored.
abbrev read_back : SubmittedDeclaration → PoGDeclaration
read_back d = record {
  agent = to_lower_case d.agent;
  content_hash = d.content_hash;
  input_hash = d.input_hash;
  model_id = d.model_id;
  runtime_id = d.runtime_id;
  process_type = d.process_type;
  human_intervention = d.human_intervention;
  pipeline_steps = d.pipeline_steps;
  declared_at = Value.nat (seconds_of d.declared_at);
  nonce = d.nonce;
  metadata_hash = d.metadata_hash;
}

parse_declaration-stored :
    (big_int : Text → Option Value) (show : ℕ → Text) (d : SubmittedDeclaration)
    → ((n : ℕ) → big_int (show n) ≡ some (Value.nat n))
    → parse_declaration big_int (stored_declaration show d) ≡ some (read_back d)
unfolding parse_declaration big_int_of stored_declaration
parse_declaration-stored big_int show d reads =
    ap (map_value (λ v. record (read_back d) { declared_at = v }))
      (reads (seconds_of d.declared_at))

-- The receipt of a row that holds a submission parses: the signature and the domain are the row's,
-- the declaration is, up to the case of its hashes and of the agent, the one that the service
-- hashed, and there is a locator exactly when the row is anchored with a transaction and an index,
-- which are then those. `BigInt` reads back what `toString` prints of a number.
pub parse_receipt-to_receipt :
    (big_int : Text → Option Value) (show iso : ℕ → Text) (row : DbDeclaration) (columns : Columns)
    (d : SubmittedDeclaration)
    → ((n : ℕ) → big_int (show n) ≡ some (Value.nat n))
    → columns.declaration ≡ stored_declaration show d
    → (p : ParsedReceipt) × (parse_receipt big_int (to_receipt show iso row columns) ≡ some p)
      × (p.signature ≡ row.signature)
      × (p.domain ≡ record { chain_id = row.chain_id; verifying_contract = row.contract })
      × (with_lower_hashes p.declaration
          ≡ record (to_declaration d) { agent = to_lower_case d.agent })
      × ((l : Locator) → (p.locator ≡ some l) ↔ IsAnchoredAt row l)
unfolding parse_receipt to_receipt to_declaration text_eq
parse_receipt-to_receipt big_int show iso row columns d reads stored =
    let parsed : Option Locator → PoGDeclaration → ParsedReceipt = λ locator declaration. record {
      declaration = declaration;
      signature = row.signature;
      domain = record { chain_id = row.chain_id; verifying_contract = row.contract };
      locator = locator;
    } in
    let e = ap (parse_declaration big_int) stored ∙ parse_declaration-stored big_int show d reads in
    let located =
      ap (λ o. some (parsed o (read_back d))) (read_anchor-to_receipt show iso row columns) in
    (
      parsed (locator_of row) (read_back d),
      ap (map_value (parsed _)) e ∙ located,
      refl,
      refl,
      refl,
      locator_of_iff row,
    )
