-- ===== src/Pog/Merkle.antt =====
-- packages/pog/src/merkle.ts. `keccak256` and `concat` are viem's. The `while` loops run on fuel,
-- as much as there are digests; `none` stands for a thrown error or spent fuel.
pub mod Completeness
use res_ex_machina.Common.{
  ℕ, zero, suc, ◌+◌, ◌-◌, ◌/◌, ◌%◌, Bool, List, [], ◌∷◌, ◌++◌, map, Option, none, some, Text, codes,
  leb, ltb, ◌==◌, if◌then◌else◌, length, get_elem?, same_hex,
}
use res_ex_machina.Pog.Hex.{big_int}

-- The index of the sibling of a node.
abbrev pub sibling : ℕ → ℕ
sibling i = if i % 2 == 0 then i + 1 else i - 1

-- The proof so far, with the sibling of node `i` if there is one at this level.
abbrev pub with_sibling : List Text → List Text → ℕ → List Text
with_sibling proof level i = elim (get_elem? level (sibling i)) [
  | none ↦ proof
  | some s ↦ proof ++ s ∷ []
]

module _ (keccak256 : Text → Text) (concat : List Text → Text) where
  unfoldable pub merkle_leaf : Text → Text
  merkle_leaf digest = keccak256 (concat (codes "0x00" ∷ digest ∷ []))

  -- `BigInt` throws on a text that is no number.
  unfoldable pub merkle_node : Text → Text → Option Text
  merkle_node a b = elim (big_int a) [
    | none ↦ none
    | some m ↦ elim (big_int b) [
      | none ↦ none
      | some n ↦
          some (keccak256 (concat (codes "0x01" ∷ (if ltb m n then a ∷ b ∷ [] else b ∷ a ∷ []))))
    ]
  ]

  -- One round of the `while` loops: neighbours are joined, an odd node at the end is promoted.
  unfoldable pub next_level : List Text → Option (List Text)
  next_level [] = some []
  next_level (a ∷ []) = some (a ∷ [])
  next_level (a ∷ b ∷ rest) =
      let others = next_level rest in
      elim (merkle_node a b) [
        | none ↦ none
        | some n ↦ elim others [ none ↦ none | some ns ↦ some (n ∷ ns) ]
      ]

  unfoldable pub root_loop : ℕ → List Text → Option Text
  root_loop zero level = none
  root_loop (suc fuel) [] = none
  root_loop (suc fuel) (h ∷ []) = some h
  root_loop (suc fuel) (a ∷ b ∷ rest) = elim (next_level (a ∷ b ∷ rest)) [
    | none ↦ none
    | some up ↦ root_loop fuel up
  ]

  unfoldable pub merkle_root : List Text → Option Text
  unfolding root_loop merkle_leaf
  merkle_root [] = none
  merkle_root (d ∷ ds) = root_loop (length (d ∷ ds)) (map merkle_leaf (d ∷ ds))

  unfoldable pub proof_loop : ℕ → List Text → List Text → ℕ → Option (List Text)
  proof_loop zero proof level i = none
  proof_loop (suc fuel) proof [] i = some proof
  proof_loop (suc fuel) proof (h ∷ []) i = some proof
  proof_loop (suc fuel) proof (a ∷ b ∷ rest) i = elim (next_level (a ∷ b ∷ rest)) [
    | none ↦ none
    | some up ↦ proof_loop fuel (with_sibling proof (a ∷ b ∷ rest) i) up (i / 2)
  ]

  unfoldable pub merkle_proof : List Text → ℕ → Option (List Text)
  unfolding proof_loop merkle_leaf
  merkle_proof digests index =
      if leb (length digests) index
      then none
      else proof_loop (length digests) [] (map merkle_leaf digests) index

  -- The loop of `verifyMerkleProof`.
  unfoldable pub climb : Text → List Text → Option Text
  climb h [] = some h
  climb h (s ∷ proof) = elim (merkle_node h s) [ none ↦ none | some n ↦ climb n proof ]

  unfoldable pub verify_merkle_proof : Text → List Text → Text → Option Bool
  unfolding climb merkle_leaf
  verify_merkle_proof digest proof root = elim (climb (merkle_leaf digest) proof) [
    | none ↦ none
    | some h ↦ some (same_hex h root)
  ]
