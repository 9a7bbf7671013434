-- ===== src/V1/Anchoring.antt =====
-- src/services/anchor.ts and the event `failed` of src/workers/anchor.worker.ts. The table `records`
-- maps a record's id to its row, with the columns that these functions read or write; the hash
-- of a transaction is never empty.
pub mod Claims
use res_ex_machina.Common.{
  ℕ, ◌+◌, Bool, true, false, not, ◌&&◌, List, [], ◌∷◌, Option, none, some, Text, leb, if◌then◌else◌,
  is_some, or_else, map_get, map_set,
}

pub data RecordState : Type 0 where
  pending_anchor anchoring anchored anchor_failed : RecordState

pub record Record : Type 0 where
  pub state : RecordState
  pub receipt_hash : Text
  pub agent_wallet : Text
  pub anchor_tx_hash : Option Text
  pub anchor_block : Option ℕ
  pub anchor_chain_id : Option ℕ
  pub anchored_at : Option ℕ
  pub anchor_error_reason : Option Text
  pub anchor_retries : ℕ

abbrev pub Records : Type 0
Records = List (Text × Record)

pub record AnchorResult : Type 0 where
  pub tx_hash : Text
  pub block : ℕ
  pub chain_id : ℕ

-- A change of state that is announced to the webhooks of a wallet.
pub record Announcement : Type 0 where
  pub wallet : Text
  pub record_id : Text
  pub to_state : RecordState

-- What the chain answers: the hash of the transaction that is sent and the block of its receipt,
-- with `none` for a call that throws.
pub record Answers : Type 0 where
  pub send_transaction : Option Text
  pub receipt_block : Option ℕ

-- What a call leaves behind: the table, the data of the transaction it sent, the announcements, and
-- its result, `none` if it throws.
pub record Anchored : Type 0 where
  pub db : Records
  pub sent : Option Text
  pub announced : List Announcement
  pub result : Option AnchorResult

abbrev pub is_pending : RecordState → Bool
is_pending pending_anchor = true
is_pending _ = false

abbrev pub is_anchored : RecordState → Bool
is_anchored anchored = true
is_anchored _ = false

-- `a || b` on texts.
abbrev pub or_text : Text → Text → Text
or_text [] b = b
or_text (c ∷ a) b = c ∷ a

-- `Number` of a number that may be null.
abbrev pub number_of : Option ℕ → ℕ
number_of none = 0
number_of (some n) = n

abbrev pub announce : Text → Text → RecordState → List Announcement
announce [] record_id to_state = []
announce (c ∷ wallet) record_id to_state =
    record { wallet = c ∷ wallet; record_id = record_id; to_state = to_state } ∷ []

-- The columns of a record that is anchored.
abbrev pub set_anchored : AnchorResult → ℕ → Record → Record
set_anchored r now row = record row {
  state = anchored;
  anchor_tx_hash = some r.tx_hash;
  anchor_block = some r.block;
  anchor_chain_id = some r.chain_id;
  anchored_at = some now;
}

-- `UPDATE records SET ... WHERE record_id = ...`.
unfoldable pub update_record : Text → (Record → Record) → Records → Records
update_record id change db = elim (map_get id db) [
  | none ↦ db
  | some row ↦ map_set id (change row) db
]

-- The claim: from `pending_anchor` to `anchoring`, and whether a row was claimed.
unfoldable pub claim_record : Text → Records → Records × Bool
claim_record id db = elim (map_get id db) [
  | none ↦ (db, false)
  | some row ↦
      if is_pending row.state
      then (map_set id (record row { state = anchoring }) db, true)
      else (db, false)
]

module _ (l2_chain_id : ℕ) where
  abbrev pub result_of : Text → Record → AnchorResult
  result_of tx_hash row = record {
    tx_hash = tx_hash;
    block = number_of row.anchor_block;
    chain_id = or_else row.anchor_chain_id l2_chain_id;
  }

  abbrev pub thrown : Records → Option Text → Anchored
  thrown db sent = record { db = db; sent = sent; announced = []; result = none }

  -- From `sendTransaction` to the end.
  unfoldable pub send_and_mark : Answers → ℕ → Text → Text → Text → Records → Anchored
  send_and_mark answers now record_id data_hash wallet db = elim answers.send_transaction [
    | none ↦ thrown db none
    | some tx_hash ↦ elim answers.receipt_block [
      | none ↦ thrown db (some data_hash)
      | some b ↦
          let r : AnchorResult = record { tx_hash = tx_hash; block = b; chain_id = l2_chain_id } in
          record {
            db = update_record record_id (set_anchored r now) db;
            sent = some data_hash;
            announced = announce wallet record_id anchored;
            result = some r;
          }
    ]
  ]

  -- `existing` is the row that the function selected at its start, `db` the table at the claim:
  -- other processes may have changed it in between.
  unfoldable pub claim_and_anchor : Answers → ℕ → Text → Text → Text → Record → Records → Anchored
  claim_and_anchor answers now record_id receipt_hash agent_wallet existing db =
      let (db', claimed) = claim_record record_id db in
      let hash = or_text existing.receipt_hash receipt_hash in
      let wallet = or_text agent_wallet existing.agent_wallet in
      if not claimed && not (is_anchored existing.state)
      then elim existing.anchor_tx_hash [
        | none ↦ thrown db' none
        | some tx_hash ↦ record {
          db = db';
          sent = none;
          announced = [];
          result = some (result_of tx_hash existing);
        }
      ]
      else send_and_mark answers now record_id hash wallet db'

  unfoldable pub after_select :
      Answers → ℕ → Text → Text → Text → Option Record → Records → Anchored
  after_select answers now record_id receipt_hash agent_wallet none db = thrown db none
  after_select answers now record_id receipt_hash agent_wallet (some existing) db =
      if is_anchored existing.state && is_some existing.anchor_tx_hash
      then record {
        db = db;
        sent = none;
        announced = [];
        result = some (result_of (or_else existing.anchor_tx_hash []) existing);
      }
      else claim_and_anchor answers now record_id receipt_hash agent_wallet existing db

  -- One call with no other process between its statements.
  unfoldable pub anchor_record : Answers → ℕ → Text → Text → Text → Records → Anchored
  anchor_record answers now record_id receipt_hash agent_wallet db =
      after_select answers now record_id receipt_hash agent_wallet (map_get record_id db) db

unfoldable pub mark_anchor_failed : Text → Text → ℕ → Records → Records × List Announcement
mark_anchor_failed record_id reason retries db =
    let db' =
      update_record record_id
        (λ row. record row {
          state = anchor_failed;
          anchor_error_reason = some reason;
          anchor_retries = retries;
        })
        db in
    (
      db',
      elim (map_get record_id db') [
        | none ↦ []
        | some row ↦ announce row.agent_wallet record_id anchor_failed
      ],
    )

-- The handler of `failed`: a job with the default of 5 attempts.
unfoldable pub on_failed : Text → Text → ℕ → Option ℕ → Records → Records × List Announcement
on_failed record_id message attempts_made attempts db =
    if leb (or_else attempts 5) attempts_made
    then mark_anchor_failed record_id message attempts_made db
    else (db, [])
