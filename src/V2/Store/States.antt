-- ===== src/V2/Store/States.antt =====
-- Claims under a lease, and how rows move through their states whatever the order of statements.
use res_ex_machina.Common.{
  ℕ, ◌+◌, ◌*◌, ◌≤◌, ◌≡◌, ◌⊎◌, inl, inr, Bool, true, false, List, [], ◌∷◌, none, some, Text, arith,
  text_eq, text_eq_iff, text_eq_refl, Option-cases, map_get, map_get-map_set,
}
use res_ex_machina.V2.Store.{
  anchored, failed, DbDeclaration, Db, is_claimable, insert_declaration, update_where,
  claim_for_anchoring, record_sent_tx, mark_anchored, mark_attempt_failed, release_claim, StoreOp,
  insert, claim, sent, anchor, fail, release, apply, apply_all,
}

-- An update of another row, or one whose condition fails, leaves a row as it is.
pub update_where-keeps :
    (id j : Text) (test : DbDeclaration → Bool) (change : DbDeclaration → DbDeclaration) (db : Db)
    (r : DbDeclaration)
    → map_get j db ≡ some r
    → (text_eq id j ≡ false) ⊎ (test r ≡ false)
    → map_get j (update_where id test change db).0 ≡ some r
unfolding update_where
update_where-keeps id j test change db r found other = elim (Option-cases (map_get id db)) [
  | inl none' ↦ rw (none', update_where) found
  | inr (q, here) ↦ ground (arith, map_get-map_set id j (change q) db, text_eq_iff id j)
]

-- What an update makes of a row that it does change.
pub update_where-changes :
    (id : Text) (test : DbDeclaration → Bool) (change : DbDeclaration → DbDeclaration) (db : Db)
    (r : DbDeclaration)
    → map_get id db ≡ some r
    → test r ≡ true
    → (map_get id (update_where id test change db).0 ≡ some (change r))
      × ((update_where id test change db).1 ≡ some (change r))
unfolding update_where
update_where-changes id test change db r found holds =
    ground (arith, map_get-map_set id id (change r) db, text_eq_refl id)

-- An update that returns a row has found it, with its condition, and stored what it returns.
pub update_where-returns :
    (id : Text) (test : DbDeclaration → Bool) (change : DbDeclaration → DbDeclaration) (db : Db)
    (r : DbDeclaration)
    → (update_where id test change db).1 ≡ some r
    → (q : DbDeclaration) × (map_get id db ≡ some q)
      × (test q ≡ true)
      × (change q ≡ r)
      × (map_get id (update_where id test change db).0 ≡ some r)
unfolding update_where
update_where-returns id test change db r e = elim (Option-cases (map_get id db)) [
  | inl absent ↦ absurd (ground arith)
  | inr (q, here) ↦ (
    q,
    here,
    ground arith,
    ground arith,
    ground (arith, map_get-map_set id id (change q) db, text_eq_refl id),
  )
]

pub update_where-refuses :
    (id : Text) (test : DbDeclaration → Bool) (change : DbDeclaration → DbDeclaration) (db : Db)
    (r : DbDeclaration)
    → map_get id db ≡ some r
    → test r ≡ false
    → update_where id test change db ≡ (db, none)
unfolding update_where
update_where-refuses id test change db r found fails = rw (found, update_where) (rw fails)

-- While a lease runs, no other worker gets the row: after a successful claim at `now`, every claim of
-- the same row up to the end of the lease returns nothing and changes nothing.
pub claim_exclusive :
    (now now' : ℕ) (id : Text) (lease lease' : ℕ) (db : Db) (r : DbDeclaration)
    → (claim_for_anchoring now id lease db).1 ≡ some r
    → now' ≤ now + lease * 1000
    → let db' = (claim_for_anchoring now id lease db).0 in
      claim_for_anchoring now' id lease' db' ≡ (db', none)
unfolding claim_for_anchoring is_claimable
claim_exclusive now now' id lease lease' db r e h =
    let (q, here, holds, changed, stored) = update_where-returns id (is_claimable now) _ db r e in
    update_where-refuses id (is_claimable now') _ _ r stored (ground arith)

abbrev pub is_final : DbDeclaration → Bool
is_final r = elim r.state [ anchored ↦ true | failed ↦ true | _ ↦ false ]

apply-final :
    (op : StoreOp) (db : Db) (id : Text) (r : DbDeclaration)
    → is_final r ≡ true
    → map_get id db ≡ some r
    → map_get id (apply op db) ≡ some r
unfolding apply
apply-final (insert row) db id r f e =
    unfold insert_declaration in
    ground (arith, map_get-map_set row.id id row db, text_eq_iff row.id id)
apply-final (claim now j lease) db id r f e =
    unfold claim_for_anchoring is_claimable in
    update_where-keeps j id _ _ db r e (inr (ground arith))
apply-final (sent j tx_hash) db id r f e =
    unfold record_sent_tx in update_where-keeps j id _ _ db r e (inr (ground arith))
apply-final (anchor now j tx_hash a) db id r f e =
    unfold mark_anchored in update_where-keeps j id _ _ db r e (inr (ground arith))
apply-final (fail j error max_attempts) db id r f e =
    unfold mark_attempt_failed in update_where-keeps j id _ _ db r e (inr (ground arith))
apply-final (release j reason) db id r f e =
    unfold release_claim in update_where-keeps j id _ _ db r e (inr (ground arith))

-- A row that is anchored or failed never changes again, whatever statements follow in whatever order.
pub final_forever :
    (ops : List StoreOp) (db : Db) (id : Text) (r : DbDeclaration)
    → is_final r ≡ true
    → map_get id db ≡ some r
    → map_get id (apply_all ops db) ≡ some r
unfolding apply_all
final_forever [] db id r f e = e
final_forever (op ∷ ops) db id r f e =
    final_forever ops (apply op db) id r f (apply-final op db id r f e)
