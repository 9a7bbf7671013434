-- ===== src/V2/Store.antt =====
-- src/v2/store.ts and the table `declarations` of src/db/schema.ts. The table maps the primary key
-- to its row; times are milliseconds of the database's clock, `now` at the statement.
pub mod States
pub mod Lifecycle
use res_ex_machina.Pog.Hex.{is_lower_hex}
use res_ex_machina.Common.{
  not, starts_with, codes, all_of, drop, ◌==◌, ℕ, ◌+◌, ◌-◌, ◌*◌, Bool, true, false, ◌&&◌, ◌||◌,
  List, [], ◌∷◌, map, Option, none, some, Text, leb, ltb, text_eq, to_lower_case, if◌then◌else◌,
  length, take, select, any_of, find_first, is_some, map_get, map_set,
}

pub data DeclState : Type 0 where
  pending anchoring anchored failed : DeclState

pub record DbDeclaration : Type 0 where
  pub id : Text
  pub digest : Text
  pub agent : Text
  pub nonce : Text
  pub content_hash : Text
  pub signature : Text
  pub chain_id : ℕ
  pub contract : Text
  pub agent_id_scheme : ℕ
  pub agent_id : Text
  pub state : DeclState
  pub attempts : ℕ
  pub lease_until : Option ℕ
  pub anchor_tx_hash : Option Text
  pub anchor_log_index : Option ℕ
  pub anchor_block : Option ℕ
  pub anchor_block_time : Option ℕ
  pub anchored_at : Option ℕ
  pub last_error : Option Text
  pub created_at : ℕ

abbrev pub Db : Type 0
Db = List (Text × DbDeclaration)

abbrev pub rows : Db → List DbDeclaration
rows db = map (λ (p : Text × DbDeclaration). p.1) db

pub data InsertOutcome : Type 0 where
  created duplicate : DbDeclaration → InsertOutcome
  nonce_conflict check_violation : InsertOutcome

-- The unique constraints of the table: its digest, and its agent with its nonce.
unfoldable pub clashes : DbDeclaration → DbDeclaration → Bool
clashes row other =
    text_eq other.digest row.digest
    || (text_eq other.agent row.agent && text_eq other.nonce row.nonce)

-- `^0x[0-9a-f]{n}$`.
unfoldable pub is_lower_hex_text : ℕ → Text → Bool
is_lower_hex_text n t =
    starts_with (codes "0x") t && length t == n + 2 && all_of is_lower_hex (drop 2 t)

-- `chk_declarations_hex`; the other check holds of any state.
unfoldable pub has_form : DbDeclaration → Bool
unfolding is_lower_hex_text
has_form row = is_lower_hex_text 64 row.digest && is_lower_hex_text 40 row.agent

-- A row without the form throws, as `check_violation`.
unfoldable pub insert_declaration : DbDeclaration → Db → Db × InsertOutcome
unfolding clashes
insert_declaration row db =
    if not (has_form row)
    then (db, check_violation)
    else if is_some (map_get row.id db) || any_of (clashes row) (rows db)
    then elim (find_first (λ (r : DbDeclaration). text_eq r.digest row.digest) (rows db)) [
      | some same ↦ (db, duplicate same)
      | none ↦ (db, nonce_conflict)
    ]
    else (map_set row.id row db, created row)

unfoldable pub get_by_digest : Text → Db → Option DbDeclaration
get_by_digest digest db =
    find_first (λ (r : DbDeclaration). text_eq r.digest (to_lower_case digest)) (rows db)

unfoldable pub get_by_id : Text → Db → Option DbDeclaration
get_by_id id db = map_get id db

-- `none` for the agent counts the rows of all agents.
unfoldable pub count_since : ℕ → Option Text → Db → ℕ
count_since since none db =
    length (select (λ (r : DbDeclaration). leb since r.created_at) (rows db))
count_since since (some agent) db =
    length
      (select (λ (r : DbDeclaration). text_eq r.agent agent && leb since r.created_at) (rows db))

-- `UPDATE ... SET ... WHERE id = ... AND ... RETURNING`.
unfoldable pub update_where :
    Text → (DbDeclaration → Bool) → (DbDeclaration → DbDeclaration) → Db → Db × Option DbDeclaration
update_where id test change db = elim (map_get id db) [
  | none ↦ (db, none)
  | some r ↦ if test r then (map_set id (change r) db, some (change r)) else (db, none)
]

abbrev pub is_anchoring : DbDeclaration → Bool
is_anchoring r = elim r.state [ anchoring ↦ true | _ ↦ false ]

-- Pending, or being anchored under a lease that has run out; a missing lease is never before `now`.
unfoldable pub is_claimable : ℕ → DbDeclaration → Bool
is_claimable now r = elim r.state [
  | pending ↦ true
  | anchoring ↦ elim r.lease_until [ none ↦ false | some until ↦ ltb until now ]
  | _ ↦ false
]

unfoldable pub claim_for_anchoring : ℕ → Text → ℕ → Db → Db × Option DbDeclaration
claim_for_anchoring now id lease_seconds db =
    update_where id (is_claimable now)
      (λ r. record r {
        state = anchoring;
        lease_until = some (now + lease_seconds * 1000);
        attempts = r.attempts + 1;
      })
      db

unfoldable pub record_sent_tx : Text → Text → Db → Db
record_sent_tx id tx_hash db =
    (update_where id is_anchoring (λ r. record r { anchor_tx_hash = some (to_lower_case tx_hash) })
      db).0

pub record AnchorLog : Type 0 where
  pub log_index : ℕ
  pub block : ℕ
  pub block_time : ℕ

unfoldable pub mark_anchored : ℕ → Text → Text → AnchorLog → Db → Db × Bool
mark_anchored now id tx_hash a db =
    let (db', row) =
      update_where id is_anchoring
        (λ r. record r {
          state = anchored;
          lease_until = none;
          anchor_tx_hash = some (to_lower_case tx_hash);
          anchor_log_index = some a.log_index;
          anchor_block = some a.block;
          anchor_block_time = some a.block_time;
          anchored_at = some now;
          last_error = none;
        })
        db in
    (db', is_some row)

-- The state that a failed attempt leads to; `none` stands for `unchanged`.
unfoldable pub mark_attempt_failed : Text → Text → ℕ → Db → Db × Option DeclState
mark_attempt_failed id error max_attempts db =
    let (db', row) =
      update_where id is_anchoring
        (λ r. record r {
          state = if leb max_attempts r.attempts then failed else pending;
          lease_until = none;
          last_error = some (take 500 error);
        })
        db in
    (db', elim row [ none ↦ none | some r ↦ some r.state ])

unfoldable pub list_to_reconcile : ℕ → ℕ → Db → List Text
list_to_reconcile now limit db =
    take limit (map (λ (r : DbDeclaration). r.id) (select (is_claimable now) (rows db)))

unfoldable pub release_claim : Text → Text → Db → Db
release_claim id reason db =
    (update_where id is_anchoring
      (λ r. record r {
        state = pending;
        attempts = r.attempts - 1;
        lease_until = none;
        last_error = some (take 500 reason);
      })
      db).0

-- The statements that change the table, and their effect.
pub data StoreOp : Type 0 where
  insert : DbDeclaration → StoreOp
  claim : ℕ → Text → ℕ → StoreOp
  sent : Text → Text → StoreOp
  anchor : ℕ → Text → Text → AnchorLog → StoreOp
  fail : Text → Text → ℕ → StoreOp
  release : Text → Text → StoreOp

unfoldable pub apply : StoreOp → Db → Db
apply (insert row) db = (insert_declaration row db).0
apply (claim now id lease_seconds) db = (claim_for_anchoring now id lease_seconds db).0
apply (sent id tx_hash) db = record_sent_tx id tx_hash db
apply (anchor now id tx_hash a) db = (mark_anchored now id tx_hash a db).0
apply (fail id error max_attempts) db = (mark_attempt_failed id error max_attempts db).0
apply (release id reason) db = release_claim id reason db

-- Any number of workers and requests, as the order in which their statements run.
unfoldable pub apply_all : List StoreOp → Db → Db
apply_all [] db = db
apply_all (op ∷ ops) db = apply_all ops (apply op db)
