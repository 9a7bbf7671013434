-- ===== src/Pog/Hex.antt =====
-- Hexadecimal texts: what `BigInt` reads, and what a hash function of viem returns.
use res_ex_machina.Common.{
  Option, none, some, ◌==◌, all_of, ℕ, ◌+◌, ◌-◌, ◌*◌, ◌<◌, ◌≡◌, refl, sym, ap, ◌∙◌, ◌&&◌, ◌||◌,
  Bool, true, [], ◌∷◌, Text, arith, leb, length, All, if◌then◌else◌,
}

unfoldable pub hex_digit : ℕ → ℕ
hex_digit c =
    if leb b'0' c && leb c b'9'
    then c - 48
    else if leb b'a' c && leb c b'f'
    then c - 87
    else if leb b'A' c && leb c b'F'
    then c - 55
    else 0

unfoldable pub digits_value : ℕ → Text → ℕ
unfolding hex_digit
digits_value acc [] = acc
digits_value acc (c ∷ s) = digits_value (acc * 16 + hex_digit c) s

abbrev pub is_hex_digit : ℕ → Bool
is_hex_digit c =
    (leb b'0' c && leb c b'9') || (leb b'a' c && leb c b'f') || (leb b'A' c && leb c b'F')

-- `BigInt` of a text of the type `Hex`, `0x` and what follows; `none` is a thrown error, on no digit
-- or on one that is not hexadecimal. The type has no other text.
unfoldable pub big_int : Text → Option ℕ
unfolding digits_value
big_int (a ∷ b ∷ c ∷ s) =
    if a == b'0' && b == b'x' && all_of is_hex_digit (c ∷ s)
    then some (digits_value 0 (c ∷ s))
    else none
big_int s = none

abbrev pub is_lower_hex : ℕ → Bool
is_lower_hex c = (leb b'0' c && leb c b'9') || (leb b'a' c && leb c b'f')

-- `0x` and 64 hexadecimal digits in lower case: what `keccak256` and `sha256` of viem return.
pub record IsHash (t : Text) : Type 0 where
  pub body : Text
  pub prefixed : t ≡ b'0' ∷ b'x' ∷ body
  pub sized : length body ≡ 64
  pub lower : All (λ c. is_lower_hex c ≡ true) body

hex_digit-injective :
    (c d : ℕ) → is_lower_hex c ≡ true → is_lower_hex d ≡ true → hex_digit c ≡ hex_digit d → c ≡ d
unfolding hex_digit
hex_digit-injective c d h k e = ground arith

hex_digit-lt : (c : ℕ) → is_lower_hex c ≡ true → hex_digit c < 16
unfolding hex_digit
hex_digit-lt c h = ground arith

digits_value-injective :
    (a b : ℕ) (s t : Text)
    → All (λ c. is_lower_hex c ≡ true) s
    → All (λ c. is_lower_hex c ≡ true) t
    → length s ≡ length t
    → digits_value a s ≡ digits_value b t
    → (a ≡ b) × (s ≡ t)
digits_value-injective a b [] [] h k l e = (unfold digits_value in e, refl)
digits_value-injective a b (c ∷ s) (d ∷ t) (hc, h) (kd, k) l e =
    let (front, rest) =
      digits_value-injective (a * 16 + hex_digit c) (b * 16 + hex_digit d) s t h k (omega arith)
        (unfold digits_value in e) in
    let same : hex_digit c ≡ hex_digit d = omega (arith, hex_digit-lt c hc, hex_digit-lt d kd) in
    (
      omega (arith, hex_digit-lt c hc, hex_digit-lt d kd),
      cc (hex_digit-injective c d hc kd same, rest),
    )
digits_value-injective a b [] (d ∷ t) h k l e = absurd (omega arith)
digits_value-injective a b (c ∷ s) [] h k l e = absurd (omega arith)

all_of-lower : (s : Text) → All (λ c. is_lower_hex c ≡ true) s → all_of is_hex_digit s ≡ true
all_of-lower [] h = refl
all_of-lower (c ∷ s) (hc, h) = ground (arith, all_of-lower s h)

-- The number of a hash.
pub hash_value : {t : Text} → IsHash t → ℕ
hash_value h = digits_value 0 h.body

body_value :
    (s : Text)
    → length s ≡ 64
    → All (λ c. is_lower_hex c ≡ true) s
    → big_int (b'0' ∷ b'x' ∷ s) ≡ some (digits_value 0 s)
unfolding big_int
body_value [] e l = absurd (omega arith)
body_value (c ∷ s) e l = ground (arith, all_of-lower (c ∷ s) l)

pub big_int-IsHash : (t : Text) (h : IsHash t) → big_int t ≡ some (hash_value h)
unfolding hash_value
big_int-IsHash t h = ap big_int h.prefixed ∙ body_value h.body h.sized h.lower

-- Two hashes with the same number are the same text.
pub hash_value-injective :
    (s t : Text) (h : IsHash s) (k : IsHash t) → hash_value h ≡ hash_value k → s ≡ t
unfolding hash_value
hash_value-injective s t h k e =
    let same = digits_value-injective 0 0 h.body k.body h.lower k.lower (h.sized ∙ sym k.sized) e in
    cc (h.prefixed, k.prefixed, same.1)
