-- ===== src/V2/Store/Lifecycle.antt =====
-- The table of declarations against its abstract specification: each row is a small machine of a
-- state and a number of attempts, and every statement moves it by at most one of the machine's steps.
use res_ex_machina.Common.{
  ℕ, ◌+◌, ◌-◌, ◌≡◌, refl, ◌∙◌, ◌⊎◌, inl, inr, Bool, true, List, [], ◌∷◌, some, Text, arith, text_eq,
  text_eq_iff, Bool-cases, map_get, leb, if◌then◌else◌,
}
use res_ex_machina.V2.Store.{
  DeclState, pending, anchoring, anchored, failed, DbDeclaration, Db, is_anchoring, is_claimable,
  insert_declaration, update_where, claim_for_anchoring, record_sent_tx, mark_anchored,
  mark_attempt_failed, release_claim, StoreOp, insert, claim, sent, anchor, fail, release, apply,
  apply_all,
}
use res_ex_machina.Common.{map_get-map_set}
use res_ex_machina.V2.Store.States.{update_where-keeps, update_where-changes}

-- One step of the machine: a worker takes the row, takes it over, or ends its attempt with success,
-- for another attempt, for good, or without having counted it.
pub data Step : DeclState → ℕ → DeclState → ℕ → Type 0 where
  takes : (n : ℕ) → Step pending n anchoring (n + 1)
  takes_over : (n : ℕ) → Step anchoring n anchoring (n + 1)
  succeeds : (n : ℕ) → Step anchoring n anchored n
  retries : (n : ℕ) → Step anchoring n pending n
  gives_up : (n : ℕ) → Step anchoring n failed n
  puts_back : (n : ℕ) → Step anchoring n pending (n - 1)

pub data Steps : DeclState → ℕ → DeclState → ℕ → Type 0 where
  stays : (a : DeclState) (n : ℕ) → Steps a n a n
  moves :
      {a : DeclState} {n : ℕ} {b : DeclState} {m : ℕ} {c : DeclState} {k : ℕ}
      → Step a n b m
      → Steps b m c k
      → Steps a n c k

-- What identifies a row and what was declared, which no statement changes.
abbrev pub declared : DbDeclaration → Text × Text × Text × Text × Text × Text × ℕ
declared r = (r.id, r.digest, r.agent, r.nonce, r.content_hash, r.signature, r.created_at)

-- A row after a statement: as it was to the machine, or moved by one step.
abbrev Follows : DbDeclaration → DbDeclaration → Type 0
Follows r q =
    (declared q ≡ declared r)
    × (((q.state ≡ r.state) × (q.attempts ≡ r.attempts))
        ⊎ Step r.state r.attempts q.state q.attempts)

update_where-either :
    (id j : Text) (test : DbDeclaration → Bool) (change : DbDeclaration → DbDeclaration) (db : Db)
    (r : DbDeclaration)
    → map_get j db ≡ some r
    → (map_get j (update_where id test change db).0 ≡ some r)
      ⊎ ((test r ≡ true) × (map_get j (update_where id test change db).0 ≡ some (change r)))
update_where-either id j test change db r found = elim (Bool-cases (test r)) [
  | inr fails ↦ inl (update_where-keeps id j test change db r found (inr fails))
  | inl holds ↦ elim (Bool-cases (text_eq id j)) [
    | inr other ↦ inl (update_where-keeps id j test change db r found (inl other))
    | inl same ↦
        let e : id ≡ j = (text_eq_iff id j).0 same in
        inr (holds, rw (← e) (update_where-changes id test change db r (rw e found) holds).0)
  ]
]

-- An update follows the machine if what it makes of a row that passes its test does.
update_where-Follows :
    (id j : Text) (test : DbDeclaration → Bool) (change : DbDeclaration → DbDeclaration) (db : Db)
    (r : DbDeclaration)
    → map_get j db ≡ some r
    → (test r ≡ true → Follows r (change r))
    → (q : DbDeclaration) × (map_get j (update_where id test change db).0 ≡ some q) × Follows r q
update_where-Follows id j test change db r found h =
    elim (update_where-either id j test change db r found) [
      | inl kept ↦ (r, kept, (refl, inl (refl, refl)))
      | inr (holds, changed) ↦ (change r, changed, h holds)
    ]

-- A step of the machine from the state that a row is known to be in.
Step-from :
    {a b : DeclState} {m : ℕ} (r : DbDeclaration)
    → r.state ≡ a
    → Step a r.attempts b m
    → Step r.state r.attempts b m
Step-from r e s = rw e s

is_anchoring-state : (r : DbDeclaration) → is_anchoring r ≡ true → r.state ≡ anchoring
is_anchoring-state r h = ground arith

claim-moves :
    (now until : ℕ) (r : DbDeclaration)
    → is_claimable now r ≡ true
    → Step r.state r.attempts anchoring (r.attempts + 1)
unfolding is_claimable
claim-moves now until r h = elim (claimable_state r.state refl) [
  | inl e ↦ Step-from r e (takes r.attempts)
  | inr (inl e) ↦ Step-from r e (takes_over r.attempts)
  | inr (inr dead) ↦ absurd (ground arith)
]
  where
    claimable_state :
        (st : DeclState)
        → r.state ≡ st
        → (r.state ≡ pending)
          ⊎ ((r.state ≡ anchoring) ⊎ ((r.state ≡ anchored) ⊎ (r.state ≡ failed)))
    claimable_state pending e = inl e
    claimable_state anchoring e = inr (inl e)
    claimable_state anchored e = inr (inr (inl e))
    claimable_state failed e = inr (inr (inr e))

fail-moves :
    (r : DbDeclaration) (max_attempts : ℕ)
    → r.state ≡ anchoring
    → Step r.state r.attempts (if leb max_attempts r.attempts then failed else pending) r.attempts
fail-moves r max_attempts e = elim (Bool-cases (leb max_attempts r.attempts)) [
  | inl last ↦ rw last (Step-from r e (gives_up r.attempts))
  | inr more ↦ rw more (Step-from r e (retries r.attempts))
]

-- Every statement follows the machine, for every row that is there.
apply-Follows :
    (op : StoreOp) (db : Db) (j : Text) (r : DbDeclaration)
    → map_get j db ≡ some r
    → (q : DbDeclaration) × (map_get j (apply op db) ≡ some q) × Follows r q
unfolding apply
apply-Follows (insert row) db j r found = (
  r,
  unfold insert_declaration in
      ground (arith, map_get-map_set row.id j row db, text_eq_iff row.id j),
  (refl, inl (refl, refl)),
)
apply-Follows (claim now id lease) db j r found =
    unfold claim_for_anchoring in
    update_where-Follows id j _ _ db r found (λ h. (refl, inr (claim-moves now 0 r h)))
apply-Follows (sent id tx_hash) db j r found =
    unfold record_sent_tx in
    update_where-Follows id j _ _ db r found (λ h. (refl, inl (refl, refl)))
apply-Follows (anchor now id tx_hash a) db j r found =
    unfold mark_anchored in
    update_where-Follows id j _ _ db r found
      (λ h. (refl, inr (Step-from r (is_anchoring-state r h) (succeeds r.attempts))))
apply-Follows (fail id error max_attempts) db j r found =
    unfold mark_attempt_failed in
    update_where-Follows id j _ _ db r found
      (λ h. (refl, inr (fail-moves r max_attempts (is_anchoring-state r h))))
apply-Follows (release id reason) db j r found =
    unfold release_claim in
    update_where-Follows id j _ _ db r found
      (λ h. (refl, inr (Step-from r (is_anchoring-state r h) (puts_back r.attempts))))

-- The table implements the machine: over any statements of any workers in any order, a row that is
-- there stays there with what it declares, and gets from its state and attempts to those that it
-- ends with by steps of the machine.
pub apply_all-Steps :
    (ops : List StoreOp) (db : Db) (j : Text) (r : DbDeclaration)
    → map_get j db ≡ some r
    → (q : DbDeclaration) × (map_get j (apply_all ops db) ≡ some q)
      × (declared q ≡ declared r)
      × Steps r.state r.attempts q.state q.attempts
unfolding apply_all
apply_all-Steps [] db j r found = (r, found, refl, stays r.state r.attempts)
apply_all-Steps (op ∷ ops) db j r found =
    let (q, found', follows) = apply-Follows op db j r found in
    let (p, there, same', steps) = apply_all-Steps ops (apply op db) j q found' in
    (
      p,
      there,
      same' ∙ follows.0,
      elim follows.1 [ inl (e, k) ↦ rw (← e, ← k) steps | inr one ↦ moves one steps ],
    )

-- A machine that has succeeded or given up moves no more, and one that succeeds was taken before.
pub Steps-final :
    {a b : DeclState} {n m : ℕ} → Steps a n b m → (a ≡ anchored) ⊎ (a ≡ failed) → (b ≡ a) × (m ≡ n)
Steps-final (stays a n) h = (refl, refl)
Steps-final (moves (takes n) rest) h = absurd (ground arith)
Steps-final (moves (takes_over n) rest) h = absurd (ground arith)
Steps-final (moves (succeeds n) rest) h = absurd (ground arith)
Steps-final (moves (retries n) rest) h = absurd (ground arith)
Steps-final (moves (gives_up n) rest) h = absurd (ground arith)
Steps-final (moves (puts_back n) rest) h = absurd (ground arith)
