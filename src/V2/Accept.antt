-- ===== src/V2/Accept.antt =====
-- src/v2/accept.ts: a submission is checked in full before it is stored and queued. The shape of a
-- body is what zod parses; the functions on hexadecimal texts, hashes
-- and signatures are viem's, `random_uuid`, `quote` (of `JSON.stringify`) and `show` the runtime's. The clock `now` is in milliseconds.
pub mod Examination
pub mod Storing
pub mod Resubmission
use res_ex_machina.Common.{
  ℕ, ◌+◌, ◌-◌, ◌*◌, ◌/◌, Bool, true, false, not, ◌&&◌, ◌||◌, List, [], ◌∷◌, ◌++◌, Option, none,
  some, Text, codes, leb, ltb, ◌==◌, if◌then◌else◌, length, drop, all_of, starts_with, text_eq,
  to_lower_case, same_hex,
}
use res_ex_machina.Pog.Declaration.{
  Value, nat, PoGDeclaration, Problem, validate_declaration, is_signature_text,
  is_canonical_signature, recover_declaration_signer,
}
use res_ex_machina.Pog.Hex.{is_hex_digit}
use res_ex_machina.Pog.Content.{Members, metadata_hash}
use res_ex_machina.Pog.Identity.{uri_hash, agent_id_for_key}
use res_ex_machina.V2.Store.{
  pending, DbDeclaration, Db, InsertOutcome, created, duplicate, nonce_conflict, check_violation,
  insert_declaration, get_by_digest, count_since,
}

pub record V2Config : Type 0 where
  pub enabled : Bool
  pub chain_id : ℕ
  pub contract : Option Text
  pub agent_daily_quota : ℕ
  pub global_daily_quota : ℕ

-- `declaredAt` is a string of digits or a number.
pub data DeclaredAt : Type 0 where
  digits : Text → DeclaredAt
  number : ℕ → DeclaredAt

pub record SubmittedDeclaration : Type 0 where
  pub agent : Text
  pub content_hash : Text
  pub input_hash : Text
  pub model_id : Text
  pub runtime_id : Text
  pub process_type : Value
  pub human_intervention : Value
  pub pipeline_steps : Value
  pub declared_at : DeclaredAt
  pub nonce : Text
  pub metadata_hash : Text

pub record Submission : Type 0 where
  pub declaration : SubmittedDeclaration
  pub signature : Text
  pub metadata : Option Members

-- The functions that the source calls. `shape` is the object that a body is, with the fields and
-- types that the schema names and no other; `recover_address` may throw.
pub record AcceptDeps (Body : Type 0) : Type 0 where
  pub shape : Body → Option Submission
  pub is_address : Text → Bool
  pub is_hex : Text → Bool
  pub hash_typed_data : ℕ → Text → PoGDeclaration → Text
  pub recover_address : Text → Text → Option Text
  pub quote : Text → Text
  pub sha256 : Text → Text
  pub keccak256 : Text → Text
  pub to_bytes : Text → Text
  pub show : ℕ → Text

pub data Refusal : Type 0 where
  v2_disabled v2_not_configured invalid_payload invalid_declaration invalid_signature : Refusal
  signature_mismatch metadata_mismatch declared_in_future agent_quota_exceeded : Refusal
  global_quota_exceeded nonce_reused : Refusal

unfoldable pub status_code : Refusal → ℕ
status_code v2_disabled = 503
status_code v2_not_configured = 503
status_code invalid_payload = 400
status_code invalid_declaration = 400
status_code invalid_signature = 422
status_code signature_mismatch = 422
status_code metadata_mismatch = 422
status_code declared_in_future = 422
status_code agent_quota_exceeded = 429
status_code global_quota_exceeded = 429
status_code nonce_reused = 409

-- `/^0x[0-9a-fA-F]{n}$/`.
unfoldable pub is_hex_text : ℕ → Text → Bool
is_hex_text n t = starts_with (codes "0x") t && length t == n + 2 && all_of is_hex_digit (drop 2 t)

abbrev is_digit : ℕ → Bool
is_digit c = leb b'0' c && leb c b'9'

-- `/^\d{1,20}$/`; a number is a nonnegative one.
unfoldable pub is_declared_at : DeclaredAt → Bool
is_declared_at (digits t) = leb 1 (length t) && leb (length t) 20 && all_of is_digit t
is_declared_at (number n) = true

-- `BigInt` of a string of digits.
unfoldable pub decimal : ℕ → Text → ℕ
decimal acc [] = acc
decimal acc (c ∷ t) = decimal (10 * acc + (c - b'0')) t

unfoldable pub seconds_of : DeclaredAt → ℕ
seconds_of (digits t) = decimal 0 t
seconds_of (number n) = n

-- The patterns of `submitSchema`.
unfoldable pub matches_schema : Submission → Bool
matches_schema s =
    let d = s.declaration in
    is_hex_text 40 d.agent
    && is_hex_text 64 d.content_hash
    && is_hex_text 64 d.input_hash
    && is_declared_at d.declared_at
    && is_hex_text 64 d.nonce
    && is_hex_text 64 d.metadata_hash
    && is_hex_text 130 s.signature

unfoldable pub to_declaration : SubmittedDeclaration → PoGDeclaration
to_declaration d = record {
  agent = d.agent;
  content_hash = to_lower_case d.content_hash;
  input_hash = to_lower_case d.input_hash;
  model_id = d.model_id;
  runtime_id = d.runtime_id;
  process_type = d.process_type;
  human_intervention = d.human_intervention;
  pipeline_steps = d.pipeline_steps;
  declared_at = nat (seconds_of d.declared_at);
  nonce = to_lower_case d.nonce;
  metadata_hash = to_lower_case d.metadata_hash;
}

abbrev pub max_future_skew_s : ℕ
max_future_skew_s = 300

-- A submission that passed every check that needs no table.
pub record Checked : Type 0 where
  pub decl : PoGDeclaration
  pub signature : Text
  pub digest : Text
  pub contract : Text

pub data Examined : Type 0 where
  refused : Refusal → Examined
  thrown : Examined
  passed : Checked → Examined

pub data Reply : Type 0 where
  ok accepted : DbDeclaration → Reply
  error : Refusal → Reply
  failure : Reply

-- What a request leaves behind: the table and the queue of declarations to anchor.
pub record Outcome : Type 0 where
  pub reply : Reply
  pub db : Db
  pub queue : List Text

-- `ZERO_HASH`.
abbrev pub zero_hash : Text
zero_hash = codes "0x0000000000000000000000000000000000000000000000000000000000000000"

-- No problem was found.
abbrev none_found : List Problem → Bool
none_found [] = true
none_found (p ∷ ps) = false

module _ {Body : Type 0} (deps : AcceptDeps Body) (cfg : V2Config) where
  -- Whether the metadata has the hash that the declaration names; `none` is a thrown error.
  unfoldable pub metadata_agrees : Option Members → PoGDeclaration → Option Bool
  metadata_agrees none decl = some true
  metadata_agrees (some m) decl = elim (metadata_hash deps.quote deps.sha256 zero_hash (some m)) [
    | none ↦ none
    | some computed ↦ some (text_eq (to_lower_case computed) decl.metadata_hash)
  ]

  -- `acceptDeclaration` once the body has the right form, up to its first look at the table.
  unfoldable pub examine_submission : ℕ → Text → Submission → Examined
  examine_submission now contract s =
      let decl = to_declaration s.declaration in
      let signature = to_lower_case s.signature in
      let digest = to_lower_case (deps.hash_typed_data cfg.chain_id contract decl) in
      if not (none_found (validate_declaration deps.is_address deps.is_hex decl))
      then refused invalid_declaration
      else if not (is_canonical_signature signature)
      then refused invalid_signature
      else elim (recover_declaration_signer deps.recover_address digest signature) [
        | none ↦ thrown
        | some signer ↦
            if not (same_hex signer decl.agent)
            then refused signature_mismatch
            else elim (metadata_agrees s.metadata decl) [
              | none ↦ thrown
              | some false ↦ refused metadata_mismatch
              | some true ↦
                  if ltb (now / 1000 + max_future_skew_s) (seconds_of s.declaration.declared_at)
                  then refused declared_in_future
                  else passed (record {
                    decl = decl;
                    signature = signature;
                    digest = digest;
                    contract = contract;
                  })
            ]
      ]

  -- The checks of `acceptDeclaration` before its first look at the table.
  unfoldable pub examine : ℕ → Body → Examined
  examine now body = if not cfg.enabled then refused v2_disabled else elim cfg.contract [
    | none ↦ refused v2_not_configured
    | some contract ↦
        if length contract == 0 then refused v2_not_configured else elim (deps.shape body) [
          | none ↦ refused invalid_payload
          | some s ↦
              if matches_schema s
              then examine_submission now contract s
              else refused invalid_payload
        ]
  ]

  -- The row of a submission, with the defaults of the table.
  abbrev pub new_row : Text → ℕ → Checked → DbDeclaration
  new_row id created_at c = record {
    id = id;
    digest = c.digest;
    agent = to_lower_case c.decl.agent;
    nonce = c.decl.nonce;
    content_hash = c.decl.content_hash;
    signature = c.signature;
    chain_id = cfg.chain_id;
    contract = to_lower_case c.contract;
    agent_id_scheme = uri_hash;
    agent_id =
        to_lower_case
          (agent_id_for_key deps.keccak256 deps.to_bytes deps.show cfg.chain_id c.decl.agent);
    state = pending;
    attempts = 0;
    lease_until = none;
    anchor_tx_hash = none;
    anchor_log_index = none;
    anchor_block = none;
    anchor_block_time = none;
    anchored_at = none;
    last_error = none;
    created_at = created_at;
  }

  -- The day before `now`.
  abbrev pub since : ℕ → ℕ
  since now = now - 24 * 3600 * 1000

  abbrev finish : List Text → Bool → Db × InsertOutcome → Outcome
  finish queue queue_works (db, nonce_conflict) = record {
    reply = error nonce_reused;
    db = db;
    queue = queue;
  }
  finish queue queue_works (db, check_violation) = record {
    reply = failure;
    db = db;
    queue = queue;
  }
  finish queue queue_works (db, duplicate row) = record { reply = ok row; db = db; queue = queue }
  finish queue true (db, created row) = record {
    reply = accepted row;
    db = db;
    queue = queue ++ row.id ∷ [];
  }
  finish queue false (db, created row) = record { reply = failure; db = db; queue = queue }

  -- The rest of `acceptDeclaration`. The uuid, the database's clock and whether the queue works are
  -- those of this request.
  unfoldable pub store_checked : ℕ → Text → ℕ → Bool → List Text → Db → Checked → Outcome
  store_checked now random_uuid created_at queue_works queue db c =
      let agent = to_lower_case c.decl.agent in
      elim (get_by_digest c.digest db) [
        | some existing ↦ record { reply = ok existing; db = db; queue = queue }
        | none ↦
            if leb cfg.agent_daily_quota (count_since (since now) (some agent) db)
            then record { reply = error agent_quota_exceeded; db = db; queue = queue }
            else if leb cfg.global_daily_quota (count_since (since now) none db)
            then record { reply = error global_quota_exceeded; db = db; queue = queue }
            else finish queue queue_works (insert_declaration (new_row random_uuid created_at c) db)
      ]

  unfoldable pub accept_declaration : ℕ → Text → ℕ → Bool → List Text → Db → Body → Outcome
  accept_declaration now random_uuid created_at queue_works queue db body =
      elim (examine now body) [
        | refused r ↦ record { reply = error r; db = db; queue = queue }
        | thrown ↦ record { reply = failure; db = db; queue = queue }
        | passed c ↦ store_checked now random_uuid created_at queue_works queue db c
      ]
