-- ===== src/V1/Urls.antt =====
-- src/utils/urlValidator.ts: which hosts a webhook may name. Parsing an URL and the resolution of
-- names are the runtime's; `none` is a thrown error.
pub mod Safety
use res_ex_machina.Common.{
  ℕ, Bool, true, false, not, ◌&&◌, ◌||◌, List, [], ◌∷◌, ◌++◌, Option, none, some, Text, codes, leb,
  ◌==◌, if◌then◌else◌, starts_with, text_eq, to_lower_case, any_of, all_of,
}

abbrev pub is_digit : ℕ → Bool
is_digit c = leb b'0' c && leb c b'9'

-- `172\.(1[6-9]|2\d|3[01])\.`.
unfoldable pub is_class_b : Text → Bool
is_class_b (a ∷ b ∷ c ∷ d ∷ e ∷ f ∷ g ∷ t) =
    a == b'1'
    && b == b'7'
    && c == b'2'
    && d == b'.'
    && ((e == b'1' && leb b'6' f && leb f b'9')
        || (e == b'2' && is_digit f)
        || (e == b'3' && leb b'0' f && leb f b'1'))
    && g == b'.'
is_class_b t = false

-- The private ranges, which the last pattern repeats for addresses mapped to IPv6.
unfoldable pub is_private : Text → Bool
is_private t =
    starts_with (codes "127.") t
    || starts_with (codes "10.") t
    || is_class_b t
    || starts_with (codes "192.168.") t
    || starts_with (codes "169.254.") t
    || starts_with (codes "0.") t

-- The text after a prefix, if it has the prefix.
unfoldable pub after_prefix : Text → Text → Option Text
after_prefix [] t = some t
after_prefix (a ∷ p) [] = none
after_prefix (a ∷ p) (b ∷ t) = let rest = after_prefix p t in if a == b then rest else none

unfoldable pub is_mapped_private : Text → Bool
is_mapped_private t = elim (after_prefix (codes "::ffff:") (to_lower_case t)) [
  | none ↦ false
  | some v4 ↦ is_private v4
]

-- `BLOCKED_IP_RANGES.some(...)`.
unfoldable pub in_blocked_range : Text → Bool
in_blocked_range t =
    is_private t
    || text_eq t (codes "::1")
    || starts_with (codes "fc") (to_lower_case t)
    || starts_with (codes "fe80") (to_lower_case t)
    || is_mapped_private t

unfoldable pub drop_closing : Text → Text
drop_closing [] = []
drop_closing (c ∷ []) = if c == b']' then [] else c ∷ []
drop_closing (c ∷ d ∷ t) = c ∷ drop_closing (d ∷ t)

-- `replace(/^\[|\]$/g, '')`.
unfoldable pub clean_host : Text → Text
clean_host [] = []
clean_host (c ∷ t) = if c == b'[' then drop_closing t else drop_closing (c ∷ t)

unfoldable pub is_blocked_ip : Text → Bool
is_blocked_ip ip = in_blocked_range (clean_host ip)

pub record Url : Type 0 where
  pub protocol : Text
  pub hostname : Text

-- The runtime: `isIP`, the two resolvers, which may throw, and `new URL`.
pub record Network : Type 0 where
  pub is_ip : Text → Bool
  pub resolve4 : Text → Option (List Text)
  pub resolve6 : Text → Option (List Text)
  pub parse_url : Text → Option Url

pub data UrlError : Type 0 where
  invalid_format not_https is_localhost blocked_ip unresolved : UrlError

abbrev pub found : Option (List Text) → List Text
found none = []
found (some ips) = ips

-- The addresses that both resolvers give.
abbrev pub all_ips : Network → Text → List Text
all_ips net host = found (net.resolve4 host) ++ found (net.resolve6 host)

-- The result of a check, `none` when nothing is wrong.
abbrev check_ips : List Text → Option UrlError
check_ips [] = some unresolved
check_ips (ip ∷ ips) = if any_of is_blocked_ip (ip ∷ ips) then some blocked_ip else none

unfoldable pub resolve_and_validate_hostname : Network → Text → Option UrlError
resolve_and_validate_hostname net hostname =
    let clean = clean_host hostname in
    if net.is_ip clean
    then (if is_blocked_ip clean then some blocked_ip else none)
    else check_ips (all_ips net clean)

unfoldable pub validate_webhook_url : Network → Text → Option UrlError
validate_webhook_url net url = elim (net.parse_url url) [
  | none ↦ some invalid_format
  | some parsed ↦
      let hostname = clean_host (to_lower_case parsed.hostname) in
      if not (text_eq parsed.protocol (codes "https:"))
      then some not_https
      else if text_eq hostname (codes "localhost")
          || text_eq hostname (codes "127.0.0.1")
          || text_eq hostname (codes "::1")
      then some is_localhost
      else resolve_and_validate_hostname net hostname
]
