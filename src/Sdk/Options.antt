-- ===== src/Sdk/Options.antt =====
-- packages/sdk/src/client.ts: what the client checks before it calls the API, beside the limits that
-- the API's schema (src/routes/schemas/index.ts) sets for the same fields.
use res_ex_machina.Common.{
  ℕ, ◌≡◌, ◌↔◌, refl, Bool, true, false, not, ◌&&◌, ◌||◌, List, [], ◌∷◌, Option, none, some, Text,
  arith, leb, ltb, ◌==◌, if◌then◌else◌, length, all_of, is_some, or_else,
}
use res_ex_machina.Mcp.Write.{given}

pub data ValidationError : Type 0 where
  ambiguous_configuration missing_configuration read_only_client : ValidationError
  model_id_required model_id_too_long too_many_tags : ValidationError
  human_intervention_level_out_of_range pipeline_steps_too_few : ValidationError
  batch_empty batch_too_large missing_agent_wallet : ValidationError
  tag_too_long : Text → ValidationError

pub record ClientOptions : Type 0 where
  pub read_only : Bool
  pub account : Option Text
  pub rpc_url : Option Text
  pub fee_receiver_address : Option Text

-- The mode of a client, and the wallet it signs with.
pub record Client : Type 0 where
  pub is_read_only : Bool
  pub account : Option Text

pub data Constructed : Type 0 where
  refused : ValidationError → Constructed
  client : Client → Constructed

-- The constructor; an empty text counts as none.
unfoldable pub construct : ClientOptions → Constructed
construct o =
    if o.read_only
    then if is_some o.account || given o.rpc_url || given o.fee_receiver_address
      then refused ambiguous_configuration
      else client (record { is_read_only = true; account = none })
    else if not (is_some o.account) || not (given o.rpc_url) || not (given o.fee_receiver_address)
    then refused missing_configuration
    else client (record { is_read_only = false; account = o.account })

-- `assertWritable`, as the error it throws.
unfoldable pub assert_writable : Client → Option ValidationError
assert_writable c = if c.is_read_only then some read_only_client else none

-- A level is a number of JavaScript: below 0, or a natural number.
pub data Level : Type 0 where
  below_zero : Level
  level : ℕ → Level

-- The fields of `RecordOptions` that are checked.
pub record RecordOptions : Type 0 where
  pub model_id : Text
  pub tags : Option (List Text)
  pub human_intervention_level : Option Level
  pub pipeline_steps : Option ℕ

-- The loop over the tags: the first that is too long.
unfoldable pub long_tag : List Text → Option ValidationError
long_tag [] = none
long_tag (tag ∷ tags) =
    let rest = long_tag tags in if ltb 64 (length tag) then some (tag_too_long tag) else rest

abbrev pub level_in_range : Option Level → Bool
level_in_range none = true
level_in_range (some below_zero) = false
level_in_range (some (level n)) = leb n 5

-- `validateRecordOptions`, as the error it throws.
unfoldable pub validate_record_options : RecordOptions → Option ValidationError
validate_record_options o =
    let tags = or_else o.tags [] in
    if length o.model_id == 0
    then some model_id_required
    else if ltb 128 (length o.model_id)
    then some model_id_too_long
    else if ltb 10 (length tags)
    then some too_many_tags
    else elim (long_tag tags) [
      | some e ↦ some e
      | none ↦
          if not (level_in_range o.human_intervention_level)
          then some human_intervention_level_out_of_range
          else if ltb (or_else o.pipeline_steps 1) 1
          then some pipeline_steps_too_few
          else none
    ]

-- The checks of `recordBatch`.
unfoldable pub check_batch : Client → ℕ → Option ValidationError
check_batch c count = elim (assert_writable c) [
  | some e ↦ some e
  | none ↦
      if count == 0 then some batch_empty else if ltb 100 count then some batch_too_large else none
]

-- The wallet that `listRecords` asks for.
unfoldable pub listed_wallet : Client → Option Text → Option Text
listed_wallet c wanted = if given wanted then wanted else c.account

-- The limits of `createRecordSchema` on the same fields, of which the client fills the ones that are
-- not given as `record` does.
unfoldable pub schema_accepts : Text → List Text → ℕ → ℕ → Bool
schema_accepts model_id tags human_intervention_level pipeline_steps =
    leb 1 (length model_id)
    && leb (length model_id) 128
    && leb (length tags) 10
    && all_of (λ tag. leb 1 (length tag) && leb (length tag) 64) tags
    && leb human_intervention_level 5
    && leb 1 pipeline_steps

abbrev pub sent_level : Option Level → ℕ
sent_level (some (level n)) = n
sent_level l = 0

long_tag-none :
    (tags : List Text)
    → long_tag tags ≡ none
    → all_of (λ tag. leb 1 (length tag)) tags ≡ true
    → all_of (λ tag. leb 1 (length tag) && leb (length tag) 64) tags ≡ true
unfolding long_tag
long_tag-none [] h e = refl
long_tag-none (tag ∷ tags) h e = ground (arith, long_tag-none tags)

-- Options that the client's own check lets through make a body that the API's schema accepts in
-- these fields, if no tag is empty.
validated_options_accepted :
    (o : RecordOptions)
    → validate_record_options o ≡ none
    → all_of (λ tag. leb 1 (length tag)) (or_else o.tags []) ≡ true
    → schema_accepts o.model_id
        (or_else o.tags [])
        (sent_level o.human_intervention_level)
        (or_else o.pipeline_steps 1)
      ≡ true
unfolding validate_record_options schema_accepts
validated_options_accepted o h e = ground (arith, long_tag-none (or_else o.tags []))

-- A client that is constructed is read-only exactly when it has no account; a read-only client makes
-- no batch, and it lists no records unless it is told a wallet.
pub construct_lem :
    (o : ClientOptions) (c : Client)
    → construct o ≡ client c
    → (c.is_read_only ≡ o.read_only)
      × ((c.is_read_only ≡ true) ↔ (c.account ≡ none))
      × ((c.is_read_only ≡ true) ↔ (assert_writable c ≡ some read_only_client))
      × ((c.is_read_only ≡ true) ↔ (listed_wallet c none ≡ none))
unfolding construct assert_writable listed_wallet
construct_lem o c h = ground arith
