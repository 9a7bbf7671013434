-- ===== src/V1/Anchoring/Claims.antt =====
-- Who sends the transaction of a record, and what a call leaves behind.
use res_ex_machina.Common.{
  ℕ, ◌≡◌, refl, sym, ap, ◌∙◌, ◌⊎◌, inl, inr, false, [], none, some, Text, arith, Option-cases,
  text_eq_refl, map_get, map_set, map_get-map_set,
}
use res_ex_machina.V1.Anchoring.{
  pending_anchor, anchoring, Record, Records, AnchorResult, Answers, Anchored, or_text, is_anchored,
  update_record, claim_record, set_anchored, send_and_mark, claim_and_anchor, after_select,
  anchor_record,
}

-- A record is claimed at most once.
claim_record_once :
    (id : Text) (db : Records)
    → ((claim_record id db).1 ≡ false) ⊎ ((claim_record id (claim_record id db).0).1 ≡ false)
unfolding claim_record
claim_record_once id db = elim (Option-cases (map_get id db)) [
  | inl absent ↦ inl (ground arith)
  | inr (row, found) ↦
      ground (arith, map_get-map_set id id (record row { state = anchoring }) db, text_eq_refl id)
]

module _ (l2_chain_id : ℕ) where
  unclaimed_sends_nothing :
      (answers : Answers) (now : ℕ) (id hash wallet : Text) (existing : Record) (db : Records)
      → is_anchored existing.state ≡ false
      → (claim_record id db).1 ≡ false
      → (claim_and_anchor l2_chain_id answers now id hash wallet existing db).sent ≡ none
  unfolding claim_and_anchor
  unclaimed_sends_nothing answers now id hash wallet existing db fresh h =
      elim (Option-cases existing.anchor_tx_hash) [
        | inl e ↦ ground arith
        | inr (t, e) ↦ ground arith
      ]

  -- Of two calls for one record that both found it not anchored, whatever else they found, the
  -- second of which claims it after the first, at most one sends a transaction.
  pub anchor_sent_once :
      (answers answers' : Answers) (now now' : ℕ) (id hash hash' wallet wallet' : Text)
      (existing existing' : Record) (db : Records)
      → is_anchored existing.state ≡ false
      → is_anchored existing'.state ≡ false
      → ((claim_and_anchor l2_chain_id answers now id hash wallet existing db).sent ≡ none)
        ⊎ ((claim_and_anchor l2_chain_id answers' now' id hash' wallet' existing'
              (claim_record id db).0).sent
            ≡ none)
  anchor_sent_once answers answers' now now' id hash hash' wallet wallet' existing existing' db f
        f' =
      elim (claim_record_once id db) [
        | inl e ↦ inl (unclaimed_sends_nothing answers now id hash wallet existing db f e)
        | inr e ↦ inr (
            unclaimed_sends_nothing answers' now' id hash' wallet' existing' (claim_record id db).0
              f' e)
      ]

  first_send_fails :
      (answers : Answers) (now : ℕ) (id hash wallet : Text) (db : Records) (row : Record)
      → map_get id db ≡ some row
      → row.state ≡ pending_anchor
      → row.anchor_tx_hash ≡ none
      → answers.send_transaction ≡ none
      → anchor_record l2_chain_id answers now id hash wallet db ≡ record {
        db = map_set id (record row { state = anchoring }) db;
        sent = none;
        announced = [];
        result = none;
      }
  unfolding anchor_record after_select claim_and_anchor claim_record send_and_mark
  first_send_fails answers now id hash wallet db row found is_pending' no_tx lost = ground arith

  stuck_throws :
      (answers : Answers) (now : ℕ) (id hash wallet : Text) (db : Records) (row : Record)
      → map_get id db ≡ some row
      → row.state ≡ anchoring
      → row.anchor_tx_hash ≡ none
      → anchor_record l2_chain_id answers now id hash wallet db
        ≡ record { db = db; sent = none; announced = []; result = none }
  unfolding anchor_record after_select claim_and_anchor claim_record
  stuck_throws answers now id hash wallet db row found stuck no_tx = ground arith

  -- A pending record whose transaction is not sent stays behind as `anchoring` without one: every
  -- later call throws, sends nothing and leaves it so, whatever the chain answers then.
  pub failed_send_sticks :
      (answers later : Answers) (now then' : ℕ) (id hash wallet : Text) (db : Records)
      (row : Record)
      → map_get id db ≡ some row
      → row.state ≡ pending_anchor
      → row.anchor_tx_hash ≡ none
      → answers.send_transaction ≡ none
      → let out = anchor_record l2_chain_id answers now id hash wallet db in
        (out.result ≡ none)
        × (map_get id out.db ≡ some (record row { state = anchoring }))
        × (anchor_record l2_chain_id later then' id hash wallet out.db
            ≡ record { db = out.db; sent = none; announced = []; result = none })
  failed_send_sticks answers later now then' id hash wallet db row found is_pending' no_tx lost =
      let stuck = record row { state = anchoring } in
      let e = first_send_fails answers now id hash wallet db row found is_pending' no_tx lost in
      let there : map_get id (map_set id stuck db) ≡ some stuck =
        ground (arith, map_get-map_set id id stuck db, text_eq_refl id) in
      rw e (
        refl,
        there,
        stuck_throws later then' id hash wallet (map_set id stuck db) stuck there refl no_tx,
      )

  pending_sends :
      (answers : Answers) (now : ℕ) (id hash wallet : Text) (db : Records) (row : Record)
      → map_get id db ≡ some row
      → row.state ≡ pending_anchor
      → anchor_record l2_chain_id answers now id hash wallet db
        ≡ send_and_mark l2_chain_id answers now id
            (or_text row.receipt_hash hash)
            (or_text wallet row.agent_wallet)
            (map_set id (record row { state = anchoring }) db)
  unfolding anchor_record after_select claim_and_anchor claim_record
  pending_sends answers now id hash wallet db row found h = ground arith

  send_and_mark_result :
      (answers : Answers) (now : ℕ) (id hash wallet : Text) (db : Records) (row : Record)
      (r : AnchorResult)
      → map_get id db ≡ some row
      → (send_and_mark l2_chain_id answers now id hash wallet db).result ≡ some r
      → map_get id (send_and_mark l2_chain_id answers now id hash wallet db).db
        ≡ some (set_anchored r now row)
  unfolding send_and_mark update_record
  send_and_mark_result answers now id hash wallet db row r found h =
      elim (Option-cases answers.send_transaction) [
        | inl e ↦ absurd (ground arith)
        | inr (t, e) ↦ elim (Option-cases answers.receipt_block) [
          | inl e' ↦ absurd (ground arith)
          | inr (b, e') ↦
              ground (arith, map_get-map_set id id (set_anchored r now row) db, text_eq_refl id)
        ]
      ]

  anchored_again :
      (answers : Answers) (now then' : ℕ) (id hash wallet : Text) (db : Records) (row : Record)
      (r : AnchorResult)
      → map_get id db ≡ some (set_anchored r then' row)
      → anchor_record l2_chain_id answers now id hash wallet db
        ≡ record { db = db; sent = none; announced = []; result = some r }
  unfolding anchor_record after_select
  anchored_again answers now then' id hash wallet db row r found = ground arith

  -- When a call for a pending record returns a result, the record is anchored with that result, and
  -- calling again, whatever the chain answers then, returns the same result, sends and announces
  -- nothing and changes nothing.
  pub anchor_record_again :
      (answers later : Answers) (now then' : ℕ) (id hash wallet : Text) (db : Records)
      (row : Record) (r : AnchorResult)
      → map_get id db ≡ some row
      → row.state ≡ pending_anchor
      → (anchor_record l2_chain_id answers now id hash wallet db).result ≡ some r
      → let out = anchor_record l2_chain_id answers now id hash wallet db in
        (map_get id out.db ≡ some (set_anchored r now (record row { state = anchoring })))
        × (anchor_record l2_chain_id later then' id hash wallet out.db
            ≡ record { db = out.db; sent = none; announced = []; result = some r })
  anchor_record_again answers later now then' id hash wallet db row r found is_pending' h =
      let claimed = record row { state = anchoring } in
      let db' = map_set id claimed db in
      let there : map_get id db' ≡ some claimed =
        ground (arith, map_get-map_set id id claimed db, text_eq_refl id) in
      let e = pending_sends answers now id hash wallet db row found is_pending' in
      let kept =
        send_and_mark_result answers now id (or_text row.receipt_hash hash)
          (or_text wallet row.agent_wallet) db' claimed r there
          (sym (ap (λ (o : Anchored). o.result) e) ∙ h) in
      rw e (
        kept,
        anchored_again later then' now id hash wallet
            (send_and_mark l2_chain_id answers now id (or_text row.receipt_hash hash)
              (or_text wallet row.agent_wallet) db').db
            claimed r kept,
      )
