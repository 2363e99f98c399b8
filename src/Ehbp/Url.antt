-- ===== src/Ehbp/Url.antt =====
-- The proxy URLs that are allowed (`validate_proxy_url` of src/ehbp_transport.rs). The parser of URLs
-- and that of IP addresses are parameters.
use Prim.Native.String.{String}
use Prim.Native.String
use text.Mathlib.Text.{◌==◌ as str_eq}
use text.Mathlib.TextEquality.{eq_iff}
use mathlib.Core.Path.{subst}
use tinfoil_rs.Prelude.{
  ◌≡◌, ◌≢◌, ◌↔◌, ◌⊎◌, refl, sym, ap, inl, inr, Bool, true, false, not, ◌||◌, Option, none, some,
  arith, if◌then◌else◌, Bool-cases,
}
use tinfoil_rs.Outcome.{
  Outcome-cases, ok_injective, Outcome, ok, err, panic, ◌>>◌, ensure, reject_if,
}
use tinfoil_rs.Decides.{
  Decides, ensure-Decides, reject_if-Decides, >>-Decides, >>-given-Decides, Decides-map,
}
use tinfoil_rs.Errors.{Error, configuration}
use tinfoil_rs.Text.{is_empty, is_some, trim_start_matches, trim_end_matches, eq_ignore_ascii_case}

-- What the code reads of a parsed URL.
pub record Url : Type 0 where
  pub scheme : String
  pub username : String
  pub password : Option String
  pub host_str : Option String
  pub query : Option String
  pub fragment : Option String

module _ (is_loopback_address : String → Bool) where
  -- The name `localhost`, or a loopback address, in brackets or not.
  unfoldable pub is_loopback : String → Bool
  unfolding eq_ignore_ascii_case trim_start_matches trim_end_matches
  is_loopback host =
      eq_ignore_ascii_case host "localhost"
      || is_loopback_address (trim_end_matches b']' (trim_start_matches b'[' host))

  -- `expect` panics without a host.
  unfoldable pub check_host : Option String → Outcome Error (Unit {0})
  unfolding is_loopback
  check_host none = panic
  check_host (some host) = ensure (is_loopback host) (
      configuration "cleartext proxy URL must use a loopback host; remote proxies require https://")

  unfoldable pub check_cleartext : Url → Outcome Error (Unit {0})
  unfolding check_host
  check_cleartext url = if str_eq url.scheme "http" then check_host url.host_str else ok tt

  unfoldable pub check_url : Url → Outcome Error (Unit {0})
  unfolding check_cleartext
  check_url url = do
    ensure (str_eq url.scheme "http" || str_eq url.scheme "https")
        (configuration (String.◌++◌ "proxy URL must use http:// or https://, got " url.scheme))
    reject_if (not (is_empty url.username) || is_some url.password)
        (configuration "proxy URL must not include credentials")
    reject_if (not (is_some url.host_str) || (is_some url.query || is_some url.fragment))
        (configuration "proxy URL must be an absolute HTTP URL without a query or fragment")
    check_cleartext url

  -- `parse` is `Url::parse`, whose error is a text.
  unfoldable pub validate_proxy_url :
      (String → Outcome String Url) → String → Outcome Error (Unit {0})
  unfolding check_url
  validate_proxy_url parse base_url = elim (parse base_url) [
    | ok url ↦ check_url url
    | err text ↦ err (configuration (String.◌++◌ "invalid proxy URL: " text))
    | panic ↦ panic
  ]

  abbrev pub HasNoCredentials : Url → Type 0
  HasNoCredentials url = (url.username ≡ String.[]) × (url.password ≡ none)

  abbrev pub IsBare : Url → Type 0
  IsBare url =
      ((host : String) × (url.host_str ≡ some host)) × (url.query ≡ none) × (url.fragment ≡ none)

  -- Over cleartext, to the host itself only.
  abbrev pub IsLocalIfCleartext : Url → Type 0
  IsLocalIfCleartext url =
      url.scheme ≡ "http" → (host : String) × (url.host_str ≡ some host) × (is_loopback host ≡ true)

  abbrev pub IsAllowed : Url → Type 0
  IsAllowed url =
      ((url.scheme ≡ "http") ⊎ (url.scheme ≡ "https"))
      × HasNoCredentials url
      × IsBare url
      × IsLocalIfCleartext url

  empty_iff : (s : String) → (is_empty s ≡ true) ↔ (s ≡ String.[])
  empty_iff String.[] = ground arith
  empty_iff (String.◌∷◌ c s) = ((λ h. cc), λ h. ap is_empty h)

  credentials_iff :
      (url : Url)
      → ((not (is_empty url.username) || is_some url.password) ≡ false) ↔ HasNoCredentials url
  credentials_iff url = ground (arith, empty_iff url.username)

  bare_parts_iff :
      (host query fragment : Option String)
      → ((not (is_some host) || (is_some query || is_some fragment)) ≡ false)
        ↔ (((text : String) × (host ≡ some text)) × (query ≡ none) × (fragment ≡ none))
  bare_parts_iff none query fragment = ((λ h. cc), λ h. cc h.0.1)
  bare_parts_iff (some host) none none = ((λ h. ((host, refl), refl, refl)), λ h. refl)
  bare_parts_iff (some host) none (some fragment) = ((λ h. cc), λ h. cc h.2)
  bare_parts_iff (some host) (some query) fragment = ((λ h. cc), λ h. cc h.1)

  scheme_iff :
      (scheme : String)
      → ((str_eq scheme "http" || str_eq scheme "https") ≡ true)
        ↔ ((scheme ≡ "http") ⊎ (scheme ≡ "https"))
  scheme_iff scheme = ground (arith, eq_iff scheme "http", eq_iff scheme "https")

  local_iff :
      {host : String} (url : Url)
      → url.host_str ≡ some host
      → url.scheme ≡ "http"
      → (is_loopback host ≡ true) ↔ IsLocalIfCleartext url
  local_iff {host} url at cleartext =
      ((λ h _. (host, at, h)), λ h. let (other, at', is_local) = h cleartext in cc)

  check_host-Decides :
      {host : String} (url : Url)
      → url.host_str ≡ some host
      → url.scheme ≡ "http"
      → Decides (check_host url.host_str) (IsLocalIfCleartext url)
  unfolding check_host
  check_host-Decides {host} url at cleartext =
      subst (λ o. Decides (check_host o) (IsLocalIfCleartext url)) (sym at)
        (ensure-Decides (is_loopback host) _ (local_iff url at cleartext))

  check_cleartext-Decides :
      (url : Url) → IsBare url → Decides (check_cleartext url) (IsLocalIfCleartext url)
  unfolding check_cleartext
  check_cleartext-Decides url ((host, at), _, _) = elim (Bool-cases (str_eq url.scheme "http")) [
    | inl cleartext ↦
        rw cleartext (check_host-Decides url at ((eq_iff url.scheme "http").0 cleartext))
    | inr other ↦
        rw other (inl (refl, λ cleartext. absurd (ground (arith, eq_iff url.scheme "http"))))
  ]

  check_url-Decides : (url : Url) → Decides (check_url url) (IsAllowed url)
  unfolding check_url
  check_url-Decides url =
      Decides-map
        (λ (scheme, (credentials, (bare, is_local))). (scheme, credentials, bare, is_local))
        (λ (scheme, credentials, bare, is_local). (scheme, (credentials, (bare, is_local))))
        (>>-Decides (ensure-Decides _ _ (scheme_iff url.scheme)) (
          >>-Decides (reject_if-Decides _ _ (credentials_iff url)) (
            >>-given-Decides _
              (reject_if-Decides _ _ (bare_parts_iff url.host_str url.query url.fragment))
              (check_cleartext-Decides url))))

  -- A proxy URL that parses passes exactly where its scheme is http or https, it has no user name
  -- and no password, it has a host and neither a query nor a fragment, and its host is a loopback
  -- one if the scheme is http. A URL that does not parse is refused. There is no panic.
  pub validate_proxy_url-Decides :
      (parse : String → Outcome String Url) (base_url : String)
      → parse base_url ≢ panic
      → Decides
          (validate_proxy_url parse base_url)
          ((url : Url) × (parse base_url ≡ ok url) × IsAllowed url)
  unfolding validate_proxy_url
  validate_proxy_url-Decides parse base_url total = elim (Outcome-cases (parse base_url)) [
    | inl (url, parsed) ↦
        rw (parsed, validate_proxy_url)
          (Decides-map (λ h. (url, refl, h))
            (λ (other, same, h). subst IsAllowed (sym (ok_injective same)) h)
            (check_url-Decides url))
    | inr (inl (text, parsed)) ↦
        rw (parsed, validate_proxy_url) (inr (_, refl, λ (url, same, h). cc same))
    | inr (inr parsed) ↦ absurd (total parsed)
  ]
