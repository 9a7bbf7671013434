-- ===== src/V2/Anchor.antt =====
-- src/v2/anchor.ts: one attempt to anchor a declaration. What the chain answers during the attempt
-- is an argument, with `none` for a call that throws; `now` is the database's clock.
pub mod Outcomes
pub mod Resend
pub mod Unfetched
use res_ex_machina.Common.{
  ℕ, ◌+◌, ◌*◌, Bool, true, false, not, ◌&&◌, List, [], ◌∷◌, Option, none, some, Text, leb, ltb,
  same_hex, if◌then◌else◌, get_elem?, find_first,
}
use res_ex_machina.Pog.Aux.{Viem, encode_single_aux}
use res_ex_machina.V2.Store.{
  DeclState, failed, DbDeclaration, Db, claim_for_anchoring, record_sent_tx, AnchorLog,
  mark_anchored, mark_attempt_failed, release_claim,
}

pub record Log : Type 0 where
  pub address : Text
  pub topics : List Text
  pub log_index : Option ℕ

pub record Receipt : Type 0 where
  pub success : Bool
  pub logs : List Log
  pub block_number : ℕ

-- The calls of the two clients in one attempt: the receipt of the transaction that the row already
-- names and the time of its block, the relayer's balance, the hash of the transaction that is sent
-- with a payload, its receipt and the time of its block.
pub record Answers : Type 0 where
  pub previous_receipt : Option Receipt
  pub previous_block_time : Option ℕ
  pub balance : Option ℕ
  pub write_contract : Text → Option Text
  pub receipt : Option Receipt
  pub block_time : Option ℕ

pub data Thrown : Type 0 where
  call_failed no_anchor_log tx_reverted bad_signature : Thrown

-- What the attempt is configured with; `message` and `low_balance` are the texts that the source
-- puts together from an error and from two balances.
pub record AnchorDeps : Type 0 where
  pub viem : Viem
  pub erc8263_topic0 : Text
  pub message : Thrown → Text
  pub low_balance : ℕ → ℕ → Text
  pub max_attempts : ℕ
  pub lease_seconds : ℕ
  pub min_relayer_balance_wei : Option ℕ

pub data AnchorOutcome : Type 0 where
  anchored : Text → AnchorLog → AnchorOutcome
  skipped : AnchorOutcome
  paused : AnchorOutcome
  retry failure : Thrown → AnchorOutcome

-- What an attempt leaves behind: the table, its outcome, and the transaction that it sent.
pub record Attempt : Type 0 where
  pub db : Db
  pub outcome : AnchorOutcome
  pub sent : Option Text

pub data Found : Type 0 where
  thrown : Thrown → Found
  reverted : Found
  found : AnchorLog → Found

abbrev pub topic_is : List Text → ℕ → Text → Bool
topic_is topics i t = elim (get_elem? topics i) [ none ↦ false | some u ↦ same_hex u t ]

module _ (deps : AnchorDeps) where
  -- The test of `findAnchorLog` on a log.
  unfoldable pub is_anchor_log : Text → Text → Log → Bool
  is_anchor_log contract digest l =
      same_hex l.address contract
      && topic_is l.topics 0 deps.erc8263_topic0
      && topic_is l.topics 2 digest

  unfoldable pub find_anchor_log : Option Receipt → Option ℕ → Text → Text → Found
  find_anchor_log none block_time contract digest = thrown call_failed
  find_anchor_log (some receipt) block_time contract digest =
      if not receipt.success
      then reverted
      else elim (find_first (is_anchor_log contract digest) receipt.logs) [
        | none ↦ thrown no_anchor_log
        | some log ↦ elim log.log_index [
          | none ↦ thrown no_anchor_log
          | some i ↦ elim block_time [
            | none ↦ thrown call_failed
            | some t ↦
                found
                  (record { log_index = i; block = receipt.block_number; block_time = t * 1000 })
          ]
        ]
      ]

  -- The `catch` block.
  unfoldable pub attempt_failed : Text → Thrown → Option Text → Db → Attempt
  attempt_failed id e sent db =
      let (db', state) = mark_attempt_failed id (deps.message e) deps.max_attempts db in
      record {
        db = db';
        outcome = elim state [ some failed ↦ failure e | _ ↦ retry e ];
        sent = sent;
      }

  abbrev pub attempt_anchored : ℕ → Text → Text → AnchorLog → Option Text → Db → Attempt
  attempt_anchored now id tx_hash log sent db = record {
    db = (mark_anchored now id tx_hash log db).0;
    outcome = anchored tx_hash log;
    sent = sent;
  }

  -- From `writeContract` on.
  unfoldable pub send_and_wait : Answers → ℕ → Text → DbDeclaration → Db → Attempt
  send_and_wait answers now id row db = elim (encode_single_aux deps.viem row.signature) [
    | none ↦ attempt_failed id bad_signature none db
    | some aux ↦ elim (answers.write_contract aux) [
      | none ↦ attempt_failed id call_failed none db
      | some tx_hash ↦
          let db' = record_sent_tx id tx_hash db in
          elim (find_anchor_log answers.receipt answers.block_time row.contract row.digest) [
            | thrown e ↦ attempt_failed id e (some tx_hash) db'
            | reverted ↦ attempt_failed id tx_reverted (some tx_hash) db'
            | found log ↦ attempt_anchored now id tx_hash log (some tx_hash) db'
          ]
    ]
  ]

  abbrev pub attempt_paused : Text → Text → Db → Attempt
  attempt_paused id reason db = record {
    db = release_claim id reason db;
    outcome = paused;
    sent = none;
  }

  -- The check of the relayer's balance, and what follows.
  unfoldable pub check_and_send : Answers → ℕ → Text → DbDeclaration → Db → Attempt
  check_and_send answers now id row db = elim deps.min_relayer_balance_wei [
    | none ↦ send_and_wait answers now id row db
    | some least ↦
        if ltb 0 least
        then elim answers.balance [
          | none ↦ attempt_failed id call_failed none db
          | some balance ↦
              if ltb balance least
              then attempt_paused id (deps.low_balance balance least) db
              else send_and_wait answers now id row db
        ]
        else send_and_wait answers now id row db
  ]

  -- The check of the transaction that an earlier attempt may have left in the row.
  unfoldable pub check_previous : Option Text → Answers → ℕ → Text → DbDeclaration → Db → Attempt
  check_previous none answers now id row db = check_and_send answers now id row db
  check_previous (some tx_hash) answers now id row db =
      elim (find_anchor_log answers.previous_receipt answers.previous_block_time row.contract
        row.digest) [
          | found log ↦ attempt_anchored now id tx_hash log none db
          | _ ↦ check_and_send answers now id row db
        ]

  unfoldable pub anchor_declaration : Answers → ℕ → Text → Db → Attempt
  anchor_declaration answers now id db =
      let (db', claimed) = claim_for_anchoring now id deps.lease_seconds db in
      elim claimed [
        | none ↦ record { db = db'; outcome = skipped; sent = none }
        | some row ↦ check_previous row.anchor_tx_hash answers now id row db'
      ]
