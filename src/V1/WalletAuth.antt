-- ===== src/V1/WalletAuth.antt =====
-- src/middleware/walletAuth.ts: who may ask for the records of a wallet. The checks of viem and the
-- reading of a date are arguments; a date that is no number, or before 1970, is `none`.
use res_ex_machina.Common.{
  ℕ, ◌+◌, ◌-◌, ◌≤◌, ◌≡◌, ◌↔◌, inl, inr, Bool, true, false, not, ◌&&◌, ◌||◌, List, [], ◌∷◌, ◌++◌,
  Option, none, some, Text, codes, arith, leb, ltb, ◌==◌, if◌then◌else◌, or_else, any_of, all_of,
  length, to_lower_case, Option-cases,
}
use res_ex_machina.Mcp.Write.{given}

pub data AuthError : Type 0 where
  missing_auth_headers invalid_wallet_address auth_timestamp_expired : AuthError
  auth_signature_invalid : AuthError

pub record AuthHeaders : Type 0 where
  pub wallet_address : Option Text
  pub signature : Option Text
  pub timestamp : Option Text

-- `verifyMessage` of an address, a message and a signature, `none` if it throws; `getAddress`, `none`
-- if the checksum is wrong; the milliseconds of a date.
pub record AuthLibraries : Type 0 where
  pub verify_message : Text → Text → Text → Option Bool
  pub get_address : Text → Option Text
  pub get_time : Text → Option ℕ

pub data Authenticated : Type 0 where
  rejected : AuthError → Authenticated
  wallet : Text → Authenticated

-- 5 * 60 * 1000
abbrev pub auth_window_ms : ℕ
auth_window_ms = 300000

is_hex_digit : ℕ → Bool
is_hex_digit c =
    (leb b'0' c && leb c b'9') || (leb b'a' c && leb c b'f') || (leb b'A' c && leb c b'F')

-- `WALLET_REGEX`.
unfoldable pub is_wallet : Text → Bool
unfolding is_hex_digit
is_wallet (z ∷ x ∷ digits) =
    z == b'0' && x == b'x' && length digits == 40 && all_of is_hex_digit digits
is_wallet s = false

-- `Math.abs(a - b)`.
abbrev pub distance : ℕ → ℕ → ℕ
distance a b = (a - b) + (b - a)

unfoldable pub messages_to_try : Text → Text → Text → List Text
messages_to_try address normalized timestamp =
    let colon = codes ":" in
    (codes "RexAuth:" ++ timestamp)
    ∷ (codes "RexAuth:" ++ address ++ colon ++ timestamp)
    ∷ (codes "RexAuth:" ++ normalized ++ colon ++ timestamp)
    ∷ (codes "RxM-Webhook:" ++ address ++ colon ++ timestamp)
    ∷ (codes "RxM-Webhook:" ++ normalized ++ colon ++ timestamp)
    ∷ []

module _ (lib : AuthLibraries) where
  open lib use {verify_message, get_address, get_time}

  -- The loop over the messages: one that throws is skipped, one that verifies ends it.
  abbrev pub signs : Text → Text → List Text → Bool
  signs normalized signature = any_of (λ m. or_else (verify_message normalized m signature) false)

  -- From the address on.
  unfoldable pub check_wallet : ℕ → Text → Text → Text → Authenticated
  check_wallet now address signature timestamp =
      if not (is_wallet address)
      then rejected invalid_wallet_address
      else elim (get_address address) [
        | none ↦ rejected invalid_wallet_address
        | some normalized ↦ elim (get_time timestamp) [
          | none ↦ rejected auth_timestamp_expired
          | some request_time ↦
              if ltb auth_window_ms (distance now request_time)
              then rejected auth_timestamp_expired
              else if signs normalized signature (messages_to_try address normalized timestamp)
              then wallet (to_lower_case normalized)
              else rejected auth_signature_invalid
        ]
      ]

  unfoldable pub wallet_auth : ℕ → AuthHeaders → Authenticated
  wallet_auth now h =
      if not (given h.wallet_address) || not (given h.signature) || not (given h.timestamp)
      then rejected missing_auth_headers
      else check_wallet now (or_else h.wallet_address []) (or_else h.signature [])
          (or_else h.timestamp [])

  check_wallet_iff :
      (now : ℕ) (address signature timestamp normalized : Text) (t : ℕ)
      → get_address address ≡ some normalized
      → get_time timestamp ≡ some t
      → (check_wallet now address signature timestamp ≡ wallet (to_lower_case normalized)) ↔ (
          (is_wallet address ≡ true)
          × (now ≤ t + auth_window_ms)
          × (t ≤ now + auth_window_ms)
          × (signs normalized signature (messages_to_try address normalized timestamp) ≡ true))
  unfolding check_wallet
  check_wallet_iff now address signature timestamp normalized t e k = ground arith

  check_wallet_sound :
      (now : ℕ) (address signature timestamp w : Text)
      → check_wallet now address signature timestamp ≡ wallet w
      → (normalized : Text) × (t : ℕ) × (get_address address ≡ some normalized)
        × (get_time timestamp ≡ some t)
        × (w ≡ to_lower_case normalized)
        × (is_wallet address ≡ true)
        × (now ≤ t + auth_window_ms)
        × (t ≤ now + auth_window_ms)
        × (signs normalized signature (messages_to_try address normalized timestamp) ≡ true)
  unfolding check_wallet
  check_wallet_sound now address signature timestamp w h =
      elim (Option-cases (get_address address)) [
        | inl bad ↦ absurd (ground arith)
        | inr (normalized, e) ↦ elim (Option-cases (get_time timestamp)) [
          | inl bad ↦ absurd (ground arith)
          | inr (t, k) ↦ (
            normalized,
            t,
            e,
            k,
            ground arith,
            ground arith,
            ground arith,
            ground arith,
            ground arith,
          )
        ]
      ]

  -- A request is authenticated exactly as the wallet of its address in lower case, when the three
  -- headers are given, the address has the form and the checksum of one, the time of the request is
  -- at most five minutes before or after the present, and the signature of the wallet verifies for
  -- one of the five messages.
  pub wallet_auth_iff :
      (now : ℕ) (address signature timestamp normalized : Text) (t : ℕ)
      → given (some address) ≡ true
      → given (some signature) ≡ true
      → given (some timestamp) ≡ true
      → get_address address ≡ some normalized
      → get_time timestamp ≡ some t
      → let h : AuthHeaders = record {
        wallet_address = some address;
        signature = some signature;
        timestamp = some timestamp;
      } in
        (wallet_auth now h ≡ wallet (to_lower_case normalized)) ↔ (
          (is_wallet address ≡ true)
          × (now ≤ t + auth_window_ms)
          × (t ≤ now + auth_window_ms)
          × (signs normalized signature (messages_to_try address normalized timestamp) ≡ true))
  unfolding wallet_auth
  wallet_auth_iff now address signature timestamp normalized t a b c e k =
      ground (arith, check_wallet_iff now address signature timestamp normalized t e k)

  -- Whoever is authenticated has sent an address that resolves to this wallet, with a time within
  -- five minutes of the present on either side, and a signature of the wallet for one of the five
  -- messages.
  pub wallet_auth_sound :
      (now : ℕ) (h : AuthHeaders) (w : Text)
      → wallet_auth now h ≡ wallet w
      → (address : Text) × (signature : Text) × (timestamp : Text) × (normalized : Text) × (t : ℕ)
        × (h.wallet_address ≡ some address)
        × (h.signature ≡ some signature)
        × (h.timestamp ≡ some timestamp)
        × (get_address address ≡ some normalized)
        × (w ≡ to_lower_case normalized)
        × (get_time timestamp ≡ some t)
        × (now ≤ t + auth_window_ms)
        × (t ≤ now + auth_window_ms)
        × (signs normalized signature (messages_to_try address normalized timestamp) ≡ true)
  unfolding wallet_auth
  wallet_auth_sound now h w e = elim (Option-cases h.wallet_address) [
    | inl missing ↦ absurd (ground arith)
    | inr (address, a) ↦ elim (Option-cases h.signature) [
      | inl missing ↦ absurd (ground arith)
      | inr (signature, b) ↦ elim (Option-cases h.timestamp) [
        | inl missing ↦ absurd (ground arith)
        | inr (timestamp, c) ↦
            let checked : check_wallet now address signature timestamp ≡ wallet w = ground arith in
            let (normalized, t, d, k, same, form, early, late, signed) =
              check_wallet_sound now address signature timestamp w checked in
            (address, signature, timestamp, normalized, t, a, b, c, d, same, k, early, late, signed)
      ]
    ]
  ]
