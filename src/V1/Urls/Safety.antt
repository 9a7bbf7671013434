-- ===== src/V1/Urls/Safety.antt =====
-- What an accepted webhook URL satisfies.
use res_ex_machina.Common.{
  ◌≡◌, ◌≢◌, ◌⊎◌, inl, inr, true, false, List, [], ◌∷◌, none, some, Text, codes, arith, Option-cases,
  Bool-cases, text_eq_iff, to_lower_case, any_of, All,
}
use res_ex_machina.V1.Urls.{
  clean_host, is_blocked_ip, Url, Network, all_ips, check_ips, resolve_and_validate_hostname,
  validate_webhook_url,
}

none_blocked :
    (ips : List Text) → any_of is_blocked_ip ips ≡ false → All (λ ip. is_blocked_ip ip ≡ false) ips
none_blocked [] h = tt
none_blocked (ip ∷ ips) h = (ground arith, none_blocked ips (ground arith))

check_ips-none :
    (ips : List Text) → check_ips ips ≡ none → (ips ≢ []) × All (λ ip. is_blocked_ip ip ≡ false) ips
check_ips-none [] h = absurd (ground arith)
check_ips-none (ip ∷ ips) h = (ground arith, none_blocked (ip ∷ ips) (ground arith))

-- A host name that passes is an address outside the blocked ranges, or it resolves to at least one
-- address and to none in a blocked range.
pub resolve_and_validate_hostname_safe :
    (net : Network) (hostname : Text)
    → resolve_and_validate_hostname net hostname ≡ none
    → ((net.is_ip (clean_host hostname) ≡ true) × (is_blocked_ip (clean_host hostname) ≡ false))
      ⊎ ((net.is_ip (clean_host hostname) ≡ false)
          × (all_ips net (clean_host hostname) ≢ [])
          × All (λ ip. is_blocked_ip ip ≡ false) (all_ips net (clean_host hostname)))
unfolding resolve_and_validate_hostname
resolve_and_validate_hostname_safe net hostname h =
    elim (Bool-cases (net.is_ip (clean_host hostname))) [
      | inl literal ↦ inl (literal, ground arith)
      | inr named ↦
          let (some_ip, none_bad) =
            check_ips-none (all_ips net (clean_host hostname)) (ground arith) in
          inr (named, some_ip, none_bad)
    ]

-- A URL that passes parses, is https, does not name the local host, and its host, without brackets
-- and in lower case, is an address outside the blocked ranges or resolves to addresses that are all
-- outside them, at least one.
pub validate_webhook_url_safe :
    (net : Network) (url : Text)
    → validate_webhook_url net url ≡ none
    → (parsed : Url) × (net.parse_url url ≡ some parsed)
      × (parsed.protocol ≡ codes "https:")
      × (clean_host (to_lower_case parsed.hostname) ≢ codes "localhost")
      × (let host = clean_host (clean_host (to_lower_case parsed.hostname)) in
          ((net.is_ip host ≡ true) × (is_blocked_ip host ≡ false))
          ⊎ ((net.is_ip host ≡ false)
              × (all_ips net host ≢ [])
              × All (λ ip. is_blocked_ip ip ≡ false) (all_ips net host)))
unfolding validate_webhook_url
validate_webhook_url_safe net url h = elim (Option-cases (net.parse_url url)) [
  | inl unread ↦ absurd (ground arith)
  | inr (parsed, read) ↦
      let host = clean_host (to_lower_case parsed.hostname) in
      (
        parsed,
        read,
        (text_eq_iff parsed.protocol (codes "https:")).0 (ground arith),
        ground (arith, text_eq_iff host (codes "localhost")),
        resolve_and_validate_hostname_safe net host (ground arith),
      )
]
