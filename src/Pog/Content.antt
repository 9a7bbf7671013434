-- ===== src/Pog/Content.antt =====
-- packages/pog/src/content.ts: canonical JSON and the hash of metadata. `quote` is `JSON.stringify`
-- on a string, a number is the text that `JSON.stringify` gives for it; `sha256` is viem's.

pub mod Order
use res_ex_machina.Common.{
  ℕ, Bool, true, false, List, [], ◌∷◌, ◌++◌, map, Option, none, some, Text, codes, leb, ltb, ◌==◌,
  if◌then◌else◌,
}

mutual
  pub data Json : Type 0 where
    null : Json
    boolean : Bool → Json
    number string : Text → Json
    not_finite : Json
    array : Items → Json
    object : Members → Json

  pub data Items : Type 0 where
    end : Items
    item : Json → Items → Items

  pub data Members : Type 0 where
    none_left : Members
    member : Text → Json → Members → Members

-- The order of UTF-16 code units, which `sort` uses.
unfoldable pub text_le : Text → Text → Bool
text_le [] t = true
text_le (a ∷ s) [] = false
text_le (a ∷ s) (b ∷ t) = let rest = text_le s t in if a == b then rest else ltb a b

-- Keys with the canonical texts of their values.
unfoldable pub insert_key : Text × Text → List (Text × Text) → List (Text × Text)
insert_key m [] = m ∷ []
insert_key m (n ∷ ms) =
    let rest = insert_key m ms in if text_le m.0 n.0 then m ∷ n ∷ ms else n ∷ rest

unfoldable pub sort_keys : List (Text × Text) → List (Text × Text)
sort_keys [] = []
sort_keys (m ∷ ms) = insert_key m (sort_keys ms)

unfoldable pub join : List Text → Text
join [] = []
join (t ∷ []) = t
join (t ∷ u ∷ ts) = t ++ codes "," ++ join (u ∷ ts)

module _ (quote : Text → Text) where
  abbrev pub pair : Text × Text → Text
  pair (k, v) = quote k ++ codes ":" ++ v

  unfoldable pub write_members : List (Text × Text) → Text
  write_members ms = codes "{" ++ join (map pair (sort_keys ms)) ++ codes "}"

  -- A thrown error is `none`.
  unfoldable mutual
    pub canonical_json : Json → Option Text
    canonical_json null = some (codes "null")
    canonical_json (boolean true) = some (codes "true")
    canonical_json (boolean false) = some (codes "false")
    canonical_json (number t) = some t
    canonical_json (string t) = some (quote t)
    canonical_json not_finite = none
    canonical_json (array xs) = elim (canonical_items xs) [
      | none ↦ none
      | some ts ↦ some (codes "[" ++ join ts ++ codes "]")
    ]
    canonical_json (object ms) = elim (canonical_members ms) [
      | none ↦ none
      | some ts ↦ some (write_members ts)
    ]

    pub canonical_items : Items → Option (List Text)
    canonical_items end = some []
    canonical_items (item x xs) = elim (canonical_json x) [
      | none ↦ none
      | some t ↦ elim (canonical_items xs) [ none ↦ none | some ts ↦ some (t ∷ ts) ]
    ]

    pub canonical_members : Members → Option (List (Text × Text))
    canonical_members none_left = some []
    canonical_members (member k x ms) = elim (canonical_json x) [
      | none ↦ none
      | some t ↦ elim (canonical_members ms) [ none ↦ none | some ts ↦ some ((k, t) ∷ ts) ]
    ]

  module _ (sha256 : Text → Text) (zero_hash : Text) where
    -- `none` for the metadata stands for a missing one.
    unfoldable pub metadata_hash : Option Members → Option Text
    metadata_hash none = some zero_hash
    metadata_hash (some none_left) = some zero_hash
    metadata_hash (some (member k x ms)) = elim (canonical_json (object (member k x ms))) [
      | none ↦ none
      | some t ↦ some (sha256 t)
    ]
