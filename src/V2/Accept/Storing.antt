-- ===== src/V2/Accept/Storing.antt =====
-- When a request changes the table, and what it leaves there.
use res_ex_machina.Common.{
  ℕ, ◌≤◌, is_some, ◌<◌, ◌≡◌, refl, ap, ◌⊎◌, inl, inr, Bool, true, false, List, [], ◌∷◌, ◌++◌, none,
  some, Text, arith, leb, Option-cases, Bool-cases, text_eq, to_lower_case, any_of, find_first,
  map_get, map_set,
}
use res_ex_machina.V2.Store.{
  DbDeclaration, Db, rows, created, duplicate, nonce_conflict, check_violation, has_form, clashes,
  insert_declaration, get_by_digest, count_since,
}
use res_ex_machina.V2.Accept.{
  V2Config, AcceptDeps, Checked, Examined, refused, thrown, passed, Refusal, Reply, accepted,
  failure, Outcome, new_row, since, examine, store_checked, accept_declaration,
}
use res_ex_machina.V2.Accept.Examination.{IsChecked, examine-IsChecked}

-- A new key stands at the end.
map_set-new :
    (id : Text) (row : DbDeclaration) (db : Db)
    → map_get id db ≡ none
    → map_set id row db ≡ db ++ (id, row) ∷ []
unfolding map_get map_set
map_set-new id row [] h = refl
map_set-new id row ((j, r) ∷ db) h = ground (arith, map_set-new id row db)

pub rows-append :
    (db : Db) (id : Text) (row : DbDeclaration) → rows (db ++ (id, row) ∷ []) ≡ rows db ++ row ∷ []
rows-append [] id row = refl
rows-append ((j, r) ∷ db) id row = ap (λ l. r ∷ l) (rows-append db id row)

-- Why a row is not inserted: its form, its key, or one of the unique constraints.
abbrev pub IsClash : DbDeclaration → Db → Type 0
IsClash row db =
    (has_form row ≡ false)
    ⊎ ((is_some (map_get row.id db) ≡ true) ⊎ (any_of (clashes row) (rows db) ≡ true))

-- An insertion finds no clash and puts the row at the end of the table, or leaves the table alone.
pub insert_declaration-cases :
    (row : DbDeclaration) (db : Db)
    → ((insert_declaration row db ≡ (db ++ (row.id, row) ∷ [], created row))
        × (has_form row ≡ true)
        × (map_get row.id db ≡ none)
        × (any_of (clashes row) (rows db) ≡ false))
      ⊎ (IsClash row db
          × (((same : DbDeclaration) × (insert_declaration row db ≡ (db, duplicate same)))
              ⊎ ((insert_declaration row db ≡ (db, nonce_conflict))
                  ⊎ (insert_declaration row db ≡ (db, check_violation)))))
unfolding insert_declaration
insert_declaration-cases row db =
    let same = find_first (λ (r : DbDeclaration). text_eq r.digest row.digest) (rows db) in
    elim (Bool-cases (has_form row)) [
      | inr bad ↦ inr (inl bad, inr (inr (ground arith)))
      | inl formed ↦ elim (Option-cases (map_get row.id db)) [
        | inr (r, taken) ↦ elim (Option-cases same) [
          | inl lost ↦ inr (inr (inl (ground arith)), inr (inl (ground arith)))
          | inr (other, found) ↦ inr (inr (inl (ground arith)), inl (other, ground arith))
        ]
        | inl free ↦ elim (Bool-cases (any_of (clashes row) (rows db))) [
          | inl clash ↦ elim (Option-cases same) [
            | inl lost ↦ inr (inr (inr clash), inr (inl (ground arith)))
            | inr (other, found) ↦ inr (inr (inr clash), inl (other, ground arith))
          ]
          | inr no_clash ↦ inl (ground (arith, map_set-new row.id row db), formed, free, no_clash)
        ]
      ]
    ]

Examined-cases :
    (e : Examined)
    → ((r : Refusal) × (e ≡ refused r)) ⊎ ((e ≡ thrown) ⊎ ((c : Checked) × (e ≡ passed c)))
Examined-cases (refused r) = inl (r, refl)
Examined-cases thrown = inr (inl refl)
Examined-cases (passed c) = inr (inr (c, refl))

abbrev pub is_accepted : Reply → Bool
is_accepted (accepted row) = true
is_accepted _ = false

module _ {Body : Type 0} (deps : AcceptDeps Body) (cfg : V2Config) where
  -- What a request that stored a row has found and left behind.
  pub record IsStored (now : ℕ) (random_uuid : Text) (created_at : ℕ) (queue_works : Bool)
      (queue : List Text) (db : Db) (body : Body) (out : Outcome) : Type 0 where
    pub checked : Checked
    pub is_passed : examine deps cfg now body ≡ passed checked
    pub is_checked : IsChecked deps cfg now body checked
    pub is_new : get_by_digest checked.digest db ≡ none
    pub in_form : has_form (new_row deps cfg random_uuid created_at checked) ≡ true
    pub no_clash :
        any_of (clashes (new_row deps cfg random_uuid created_at checked)) (rows db) ≡ false
    pub agent_quota :
        count_since (since deps cfg now) (some (to_lower_case checked.decl.agent)) db
        < cfg.agent_daily_quota
    pub global_quota : count_since (since deps cfg now) none db < cfg.global_daily_quota
    pub table : out.db ≡ db ++ (random_uuid, new_row deps cfg random_uuid created_at checked) ∷ []
    pub answered :
        ((queue_works ≡ true)
          × (out.reply ≡ accepted (new_row deps cfg random_uuid created_at checked))
          × (out.queue ≡ queue ++ random_uuid ∷ []))
        ⊎ ((queue_works ≡ false) × (out.reply ≡ failure) × (out.queue ≡ queue))

  -- Why a submission that passed the checks is not stored.
  abbrev pub WhyNot : ℕ → Text → ℕ → Db → Checked → Type 0
  WhyNot now random_uuid created_at db c =
      ((existing : DbDeclaration) × (get_by_digest c.digest db ≡ some existing))
      ⊎ ((cfg.agent_daily_quota
            ≤ count_since (since deps cfg now) (some (to_lower_case c.decl.agent)) db)
          ⊎ ((cfg.global_daily_quota ≤ count_since (since deps cfg now) none db)
              ⊎ IsClash (new_row deps cfg random_uuid created_at c) db))

  -- What a request that stored nothing leaves behind, and why.
  pub record IsLeft (now : ℕ) (random_uuid : Text) (created_at : ℕ) (queue : List Text) (db : Db)
      (body : Body) (out : Outcome) : Type 0 where
    pub table : out.db ≡ db
    pub queued : out.queue ≡ queue
    pub answered : is_accepted out.reply ≡ false
    pub why :
        (c : Checked)
        → examine deps cfg now body ≡ passed c
        → WhyNot now random_uuid created_at db c

  store_checked-IsLeft :
      (now : ℕ) (random_uuid : Text) (created_at : ℕ) (queue : List Text) (db : Db) (body : Body)
      (c : Checked) (out : Outcome)
      → examine deps cfg now body ≡ passed c
      → out.db ≡ db
      → out.queue ≡ queue
      → is_accepted out.reply ≡ false
      → WhyNot now random_uuid created_at db c
      → IsLeft now random_uuid created_at queue db body out
  store_checked-IsLeft now random_uuid created_at queue db body c out is_passed e1 e2 e3 w =
      record {
        table = e1;
        queued = e2;
        answered = e3;
        why = λ c' e. let same : c ≡ c' = ground (arith, e, is_passed) in rw⁻¹ same w;
      }

  store_checked-stores :
      (now : ℕ) (random_uuid : Text) (created_at : ℕ) (queue_works : Bool) (queue : List Text)
      (db : Db) (body : Body) (c : Checked)
      → examine deps cfg now body ≡ passed c
      → let out = store_checked deps cfg now random_uuid created_at queue_works queue db c in
        IsStored now random_uuid created_at queue_works queue db body out
        ⊎ IsLeft now random_uuid created_at queue db body out
  unfolding store_checked
  store_checked-stores now random_uuid created_at queue_works queue db body c is_passed =
      let agent = to_lower_case c.decl.agent in
      let row = new_row deps cfg random_uuid created_at c in
      let left =
        store_checked-IsLeft now random_uuid created_at queue db body c
          (store_checked deps cfg now random_uuid created_at queue_works queue db c) is_passed in
      let by_agent = count_since (since deps cfg now) (some agent) db in
      let by_all = count_since (since deps cfg now) none db in
      elim (Option-cases (get_by_digest c.digest db)) [
        | inr (existing, found) ↦
            inr (left (ground arith) (ground arith) (ground arith) (inl (existing, found)))
        | inl is_new ↦ elim (Bool-cases (leb cfg.agent_daily_quota by_agent)) [
          | inl over ↦
              inr (left (ground arith) (ground arith) (ground arith) (inr (inl (ground arith))))
          | inr under ↦ elim (Bool-cases (leb cfg.global_daily_quota by_all)) [
            | inl over ↦
                inr (
                  left (ground arith) (ground arith) (ground arith)
                    (inr (inr (inl (ground arith)))))
            | inr free ↦ elim (insert_declaration-cases row db) [
              | inr (clash, how) ↦ inr (
                  left (ground (arith, how)) (ground (arith, how)) (ground (arith, how))
                    (inr (inr (inr clash))))
              | inl (e, formed, new_id, no_clash) ↦ inl (record {
                checked = c;
                is_passed = is_passed;
                is_checked = examine-IsChecked deps cfg now body c is_passed;
                is_new = is_new;
                in_form = formed;
                no_clash = no_clash;
                agent_quota = ground arith;
                global_quota = ground arith;
                table = ground arith;
                answered = elim (Bool-cases queue_works) [
                  | inl works ↦ inl (ground arith)
                  | inr fails ↦ inr (ground arith)
                ];
              })
            ]
          ]
        ]
      ]

  -- A request either stores one row, after every check: a pending row of the submission, which is
  -- answered 202 and queued if the queue works, and answered with a failure and not queued if it does
  -- not. Or it leaves the table and the queue as they are and is not answered 202, and then its
  -- submission did not pass the checks, or its digest is known, or a daily quota is used up, or the
  -- table refuses the row: its form, its identifier, or a unique constraint.
  pub accept_declaration_stores :
      (now : ℕ) (random_uuid : Text) (created_at : ℕ) (queue_works : Bool) (queue : List Text)
      (db : Db) (body : Body)
      → let out =
          accept_declaration deps cfg now random_uuid created_at queue_works queue db body in
        IsStored now random_uuid created_at queue_works queue db body out
        ⊎ IsLeft now random_uuid created_at queue db body out
  unfolding accept_declaration store_checked
  accept_declaration_stores now random_uuid created_at queue_works queue db body =
      elim (Examined-cases (examine deps cfg now body)) [
        | inl (r, e) ↦ inr (record {
          table = ground arith;
          queued = ground arith;
          answered = ground arith;
          why = λ c h. absurd (ground (arith, h, e));
        })
        | inr (inl e) ↦ inr (record {
          table = ground arith;
          queued = ground arith;
          answered = ground arith;
          why = λ c h. absurd (ground (arith, h, e));
        })
        | inr (inr (c, e)) ↦
            rw (e, accept_declaration)
              (store_checked-stores now random_uuid created_at queue_works queue db body c e)
      ]
