-- ===== src/Pog/Aux.antt =====
-- packages/pog/src/bindings/erc8263.ts: the payload of an anchor. The functions on hexadecimal
-- texts, and the hash, are viem's; a thrown error is `none`.
use res_ex_machina.Common.{
  true, length, all_of, ◌≤◌, ℕ, ◌+◌, ◌≡◌, List, [], ◌∷◌, ◌&&◌, Option, none, some, Text, arith,
  codes, leb, ◌==◌, text_eq, text_eq_refl, to_lower_case, if◌then◌else◌,
}
use res_ex_machina.Pog.Hex.{is_hex_digit}

pub record Viem : Type 0 where
  pub keccak256 : Text → Text
  pub to_bytes : Text → Text
  pub concat : List Text → Text
  pub size : Text → ℕ
  pub slice : Text → ℕ → ℕ → Text
  pub slice_from : Text → ℕ → Text

pub data DecodedAux : Type 0 where
  single batch : Text → DecodedAux

module _ (viem : Viem) where
  open viem use {keccak256, to_bytes, concat, size, slice, slice_from}

  unfoldable pub selector_single : Text
  selector_single = slice (keccak256 (to_bytes (codes "rxm-pog-v2/single"))) 0 4

  unfoldable pub selector_batch : Text
  selector_batch = slice (keccak256 (to_bytes (codes "rxm-pog-v2/batch"))) 0 4

  unfoldable pub encode_single_aux : Text → Option Text
  encode_single_aux signature =
      if size signature == 65 then some (concat (selector_single ∷ signature ∷ [])) else none

  unfoldable pub encode_batch_aux : Text → Option Text
  encode_batch_aux bundle_hash =
      if size bundle_hash == 32 then some (concat (selector_batch ∷ bundle_hash ∷ [])) else none

  unfoldable pub decode_aux : Text → Option DecodedAux
  decode_aux aux =
      let sel = if leb 4 (size aux) then to_lower_case (slice aux 0 4) else [] in
      if text_eq sel (to_lower_case selector_single) && size aux == 69
      then some (single (slice_from aux 4))
      else if text_eq sel (to_lower_case selector_batch) && size aux == 36
      then some (batch (slice_from aux 4))
      else none

-- The encoder for each kind of payload.
abbrev pub encode_aux : Viem → DecodedAux → Option Text
encode_aux viem (single signature) = encode_single_aux viem signature
encode_aux viem (batch bundle_hash) = encode_batch_aux viem bundle_hash

-- A text of bytes: `0x` and two hexadecimal digits for each.
pub record IsBytes (t : Text) : Type 0 where
  pub body : Text
  pub count : ℕ
  pub prefixed : t ≡ b'0' ∷ b'x' ∷ body
  pub sized : length body ≡ count + count
  pub digits : all_of is_hex_digit body ≡ true

-- What viem's functions do to texts of bytes: `concat` joins a text of four bytes and another, `size`
-- counts the bytes and `slice` takes them apart again, where it starts before the end; `keccak256`
-- gives bytes, and the first four of them are four.
pub record JoinsBytes (viem : Viem) : Type 0 where
  pub size-concat :
      (s t : Text)
      → IsBytes s
      → IsBytes t
      → viem.size s ≡ 4
      → viem.size (viem.concat (s ∷ t ∷ [])) ≡ 4 + viem.size t
  pub slice-concat :
      (s t : Text)
      → IsBytes s
      → IsBytes t
      → viem.size s ≡ 4
      → viem.slice (viem.concat (s ∷ t ∷ [])) 0 4 ≡ s
  pub slice_from-concat :
      (s t : Text)
      → IsBytes s
      → IsBytes t
      → viem.size s ≡ 4
      → 1 ≤ viem.size t
      → viem.slice_from (viem.concat (s ∷ t ∷ [])) 4 ≡ t
  pub selector : (t : Text) → IsBytes (viem.slice (viem.keccak256 t) 0 4)
  pub size-selector : (t : Text) → viem.size (viem.slice (viem.keccak256 t) 0 4) ≡ 4

-- The signature or the hash of the bundle.
abbrev pub payload : DecodedAux → Text
payload (single signature) = signature
payload (batch bundle_hash) = bundle_hash

module _ (viem : Viem) (laws : JoinsBytes viem) where
  open viem use {keccak256, to_bytes, slice, size, concat}
  open laws use {size-concat, slice-concat, slice_from-concat, selector, size-selector}

  -- The four laws at the selector of a name.
  at_selector :
      (name t : Text)
      → IsBytes t
      → 1 ≤ size t
      → let sel = slice (keccak256 (to_bytes name)) 0 4 in
        let aux = concat (sel ∷ t ∷ []) in
        (size aux ≡ 4 + size t)
        × (slice aux 0 4 ≡ sel)
        × (viem.slice_from aux 4 ≡ t)
        × (text_eq (to_lower_case sel) (to_lower_case sel) ≡ true)
  at_selector name t b n =
      let named = to_bytes name in
      let sel = slice (keccak256 named) 0 4 in
      (
        size-concat sel t (selector named) b (size-selector named),
        slice-concat sel t (selector named) b (size-selector named),
        slice_from-concat sel t (selector named) b (size-selector named) n,
        text_eq_refl (to_lower_case sel),
      )

  -- With functions that join and cut bytes as `JoinsBytes` says: a payload of bytes that the package
  -- encodes, for a single anchor or for a batch, decodes to what was put in: its kind, and the
  -- signature or the hash of the bundle.
  pub decode_aux-encode_aux :
      (d : DecodedAux) (aux : Text)
      → IsBytes (payload d)
      → encode_aux viem d ≡ some aux
      → decode_aux viem aux ≡ some d
  unfolding encode_single_aux encode_batch_aux decode_aux selector_single selector_batch
  decode_aux-encode_aux (single t) aux b h =
      ground (arith, at_selector (codes "rxm-pog-v2/single") t b (ground arith))
  decode_aux-encode_aux (batch t) aux b h =
      ground (arith, at_selector (codes "rxm-pog-v2/batch") t b (ground arith))
