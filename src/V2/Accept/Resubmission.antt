-- ===== src/V2/Accept/Resubmission.antt =====
-- Sending a declaration again, and the daily quotas.
use res_ex_machina.Common.{
  ℕ, ◌+◌, ◌≤◌, ◌≡◌, sym, ap, ◌∙◌, inl, inr, Bool, ◌&&◌, List, [], ◌∷◌, ◌++◌, Option, none, some,
  Text, arith, leb, text_eq, text_eq_refl, to_lower_case, to_lower_case_idem, find_first,
  find_first-append, length, length-append, select, select-append,
}
use res_ex_machina.V2.Store.{DbDeclaration, Db, rows, get_by_digest, count_since}
use res_ex_machina.V2.Accept.{
  V2Config, AcceptDeps, Checked, passed, ok, accepted, new_row, since, examine, store_checked,
  accept_declaration,
}
use res_ex_machina.V2.Accept.Examination.{examine-later}
use res_ex_machina.V2.Accept.Storing.{IsStored, rows-append, accept_declaration_stores}

get_by_digest-append :
    (digest id : Text) (db : Db) (row : DbDeclaration)
    → get_by_digest digest db ≡ none
    → row.digest ≡ to_lower_case digest
    → get_by_digest digest (db ++ (id, row) ∷ []) ≡ some row
unfolding get_by_digest
get_by_digest-append digest id db row absent e =
    ap (find_first (λ (r : DbDeclaration). text_eq r.digest (to_lower_case digest)))
      (rows-append db id row)
    ∙ find_first-append (λ (r : DbDeclaration). text_eq r.digest (to_lower_case digest)) (rows db)
        row absent (rw e (text_eq_refl (to_lower_case digest)))

length-select_one :
    (p : DbDeclaration → Bool) (l : List DbDeclaration) (row : DbDeclaration)
    → length (select p (l ++ row ∷ [])) ≤ length (select p l) + 1
length-select_one p l row =
    ground (arith, select-append p l (row ∷ []), length-append (select p l) (select p (row ∷ [])))

count_since-append :
    (from : ℕ) (agent : Option Text) (id : Text) (row : DbDeclaration) (db : Db)
    → count_since from agent (db ++ (id, row) ∷ []) ≤ count_since from agent db + 1
unfolding count_since
count_since-append from none id row db =
    rw (rows-append db id row)
      (length-select_one (λ (r : DbDeclaration). leb from r.created_at) (rows db) row)
count_since-append from (some agent) id row db = rw (rows-append db id row) (
    length-select_one (λ (r : DbDeclaration). text_eq r.agent agent && leb from r.created_at)
      (rows db) row)

module _ {Body : Type 0} (deps : AcceptDeps Body) (cfg : V2Config) where
  IsStored-of_accepted :
      (now : ℕ) (random_uuid : Text) (created_at : ℕ) (queue_works : Bool) (queue : List Text)
      (db : Db) (body : Body) (row : DbDeclaration)
      → let out =
          accept_declaration deps cfg now random_uuid created_at queue_works queue db body in
        (out.reply ≡ accepted row)
        → (s : IsStored deps cfg now random_uuid created_at queue_works queue db body out) × (row
            ≡ new_row deps cfg random_uuid created_at s.checked)
  IsStored-of_accepted now random_uuid created_at queue_works queue db body row h =
      elim (accept_declaration_stores deps cfg now random_uuid created_at queue_works queue db
        body) [
          | inr left ↦ absurd (ground (arith, left.answered))
          | inl s ↦ (s, ground (arith, s.answered))
        ]

  accept_declaration-known :
      (now : ℕ) (random_uuid : Text) (created_at : ℕ) (queue_works : Bool) (queue : List Text)
      (db : Db) (body : Body) (c : Checked) (row : DbDeclaration)
      → examine deps cfg now body ≡ passed c
      → get_by_digest c.digest db ≡ some row
      → accept_declaration deps cfg now random_uuid created_at queue_works queue db body
        ≡ record { reply = ok row; db = db; queue = queue }
  unfolding accept_declaration store_checked
  accept_declaration-known now random_uuid created_at queue_works queue db body c row e found =
      ground arith

  -- The row that a declaration became is the one with its digest.
  pub get_by_digest-accept_declaration :
      (now : ℕ) (random_uuid : Text) (created_at : ℕ) (queue_works : Bool) (queue : List Text)
      (db : Db) (body : Body) (row : DbDeclaration)
      → let out =
          accept_declaration deps cfg now random_uuid created_at queue_works queue db body in
        (out.reply ≡ accepted row)
        → (get_by_digest row.digest out.db ≡ some row) × (to_lower_case row.digest ≡ row.digest)
  get_by_digest-accept_declaration now random_uuid created_at queue_works queue db body row h =
      let (s, e) =
        IsStored-of_accepted now random_uuid created_at queue_works queue db body row h in
      let c = s.checked in
      let lower =
        s.is_checked.digest_is
        ∙ sym (to_lower_case_idem (deps.hash_typed_data cfg.chain_id c.contract c.decl))
        ∙ ap to_lower_case (sym s.is_checked.digest_is) in
      let new = new_row deps cfg random_uuid created_at c in
      let found =
        ap (get_by_digest c.digest) s.table
        ∙ get_by_digest-append c.digest random_uuid db new s.is_new lower in
      rw e (found, sym lower)

  -- A declaration that was answered 202 and is sent again, at the same time or later, is answered
  -- 200 with the same row, and neither the table nor the queue changes.
  pub accept_again :
      (now later : ℕ) (random_uuid uuid' : Text) (created_at created' : ℕ)
      (queue_works works' : Bool) (queue : List Text) (db : Db) (body : Body) (row : DbDeclaration)
      → (accept_declaration deps cfg now random_uuid created_at queue_works queue db body).reply
        ≡ accepted row
      → now ≤ later
      → let out =
          accept_declaration deps cfg now random_uuid created_at queue_works queue db body in
        accept_declaration deps cfg later uuid' created' works' out.queue out.db body
        ≡ record { reply = ok row; db = out.db; queue = out.queue }
  accept_again now later random_uuid uuid' created_at created' queue_works works' queue db body row
        h after =
      let (s, e) =
        IsStored-of_accepted now random_uuid created_at queue_works queue db body row h in
      let out = accept_declaration deps cfg now random_uuid created_at queue_works queue db body in
      let (found, lower) =
        get_by_digest-accept_declaration now random_uuid created_at queue_works queue db body row
          h in
      let c = s.checked in
      accept_declaration-known later uuid' created' works' out.queue out.db body c row
        (examine-later deps cfg now later body c after s.is_passed)
        (ap (λ (r : DbDeclaration). get_by_digest r.digest out.db) (sym e) ∙ found)

  -- When a declaration is answered 202, its agent has at most its daily quota of declarations in
  -- the table from the last 24 hours, the new one included, and all agents have at most the global
  -- quota.
  pub accepted_within_quotas :
      (now : ℕ) (random_uuid : Text) (created_at : ℕ) (queue_works : Bool) (queue : List Text)
      (db : Db) (body : Body) (row : DbDeclaration)
      → (accept_declaration deps cfg now random_uuid created_at queue_works queue db body).reply
        ≡ accepted row
      → let out =
          accept_declaration deps cfg now random_uuid created_at queue_works queue db body in
        (count_since (since deps cfg now) (some row.agent) out.db ≤ cfg.agent_daily_quota)
        × (count_since (since deps cfg now) none out.db ≤ cfg.global_daily_quota)
  accepted_within_quotas now random_uuid created_at queue_works queue db body row h =
      let (s, e) =
        IsStored-of_accepted now random_uuid created_at queue_works queue db body row h in
      let new = new_row deps cfg random_uuid created_at s.checked in
      let by_agent = count_since-append (since deps cfg now) (some new.agent) random_uuid new db in
      let by_all = count_since-append (since deps cfg now) none random_uuid new db in
      rw (e, s.table)
        (omega (arith, s.agent_quota, by_agent), omega (arith, s.global_quota, by_all))
