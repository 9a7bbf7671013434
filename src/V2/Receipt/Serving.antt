-- ===== src/V2/Receipt/Serving.antt =====
-- The route that answers a receipt, after the intake of a declaration.
use res_ex_machina.Common.{ℕ, ◌≡◌, refl, sym, ◌∙◌, Bool, true, List, Text, arith, to_lower_case}
use res_ex_machina.V2.Store.{DbDeclaration, Db, get_by_digest}
use res_ex_machina.V2.Accept.{V2Config, AcceptDeps, accepted, accept_declaration, is_hex_text}
use res_ex_machina.V2.Accept.Resubmission.{get_by_digest-accept_declaration}
use res_ex_machina.V2.Receipt.{Columns, receipt, to_receipt, get_declaration}

get_by_digest-case :
    (t u : Text) (db : Db)
    → to_lower_case t ≡ to_lower_case u
    → get_by_digest t db ≡ get_by_digest u db
unfolding get_by_digest
get_by_digest-case t u db e = rw e refl

-- A declaration that was answered 202 is served: asked for its digest, as 64 hexadecimal digits in
-- either case, the route answers the receipt of the row, with the columns stored for it.
pub accepted_is_served :
    {Body : Type 0} (deps : AcceptDeps Body) (cfg : V2Config) (show iso : ℕ → Text)
    (columns : Text → Columns) (now : ℕ) (random_uuid : Text) (created_at : ℕ) (queue_works : Bool)
    (queue : List Text) (db : Db) (body : Body) (row : DbDeclaration) (digest : Text)
    → let out = accept_declaration deps cfg now random_uuid created_at queue_works queue db body in
      (out.reply ≡ accepted row)
      → to_lower_case digest ≡ row.digest
      → is_hex_text 64 digest ≡ true
      → get_declaration show iso columns digest out.db
        ≡ receipt (to_receipt show iso row (columns row.id))
unfolding get_declaration
accepted_is_served deps cfg show iso columns now random_uuid created_at queue_works queue db body
      row digest h e hex =
    let out = accept_declaration deps cfg now random_uuid created_at queue_works queue db body in
    let (found, lower) =
      get_by_digest-accept_declaration deps cfg now random_uuid created_at queue_works queue db body
        row h in
    let same = get_by_digest-case digest row.digest out.db (e ∙ sym lower) in
    ground (arith, hex, same ∙ found)
