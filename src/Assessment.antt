-- ===== src/Assessment.antt =====
-- The bounded scan of app/assessment.py (`target_url`, `collect`) and the handler `scan` of
-- app/routers/assessment.py, with `phone_lookup`.
--
-- URL splitting, IDNA, regular expressions, DNS and the connection are the library's. What a request
-- does to the outside is a list of effects, in their order.
pub mod Scans
pub mod Phones
pub mod Sarif
pub mod Headers
pub mod Native
pub mod Handlers
mod Tests
use skyrecon.Base.{
  ℕ, String, Bool, true, false, not, ◌&&◌, ◌||◌, Option, none, some, List, [], ◌∷◌, ◌++◌, map, Text,
  codes, text_eq, ltb, leb, ◌==◌, any, keep, length, if◌then◌else◌,
}
use skyrecon.IocParser.{Pattern, is_text}
use skyrecon.Indicators.{split_tags, merge_tags}

-- What `urlsplit` gives; a port out of range raises when it is read.
pub record UrlParts : Type 0 where
  pub scheme : Text
  pub hostname : Option Text
  pub username : Option Text
  pub password : Option Text
  pub port : Option (Option ℕ)
  pub fragment : Text
  pub query : Text
  pub path : Text

-- The status of a response, with its headers.
pub record Response : Type 0 where
  pub status : ℕ
  pub headers : List (Text × Text)

-- A call that raises is `none`: `urlsplit`, `encode("idna").decode("ascii")`, `getaddrinfo`, and the
-- request over TLS to an address, for a host and a path. An address that does not parse is not global.
pub record Net : Type 0 where
  pub urlsplit : Text → Option UrlParts
  pub idna : Text → Option Text
  pub lower : Text → Text
  pub strip : Text → Text
  pub fullmatch : Pattern → Text → Bool
  pub getaddrinfo : Text → Option (List Text)
  pub is_global : Text → Bool
  pub get : Text → Text → Text → Option Response

pub data Effect : Type 0 where
  audited : String → Effect
  resolved : Text → Effect
  connected : Text → Text → Effect

abbrev pub filled : Option Text → Bool
filled none = false
filled (some s) = is_text s

abbrev pub plain_port : Option (Option ℕ) → Bool
plain_port none = false
plain_port (some none) = true
plain_port (some (some p)) = p == 443

abbrev pub host_pattern : Pattern
host_pattern = record { pattern = "[a-z0-9](?:[a-z0-9.-]*[a-z0-9])?"; ignore_case = false }

abbrev pub or_slash : Text → Text
or_slash [] = codes "/"
or_slash (c ∷ s) = c ∷ s

abbrev pub or_nothing : Option Text → Text
or_nothing none = []
or_nothing (some s) = s

module _ (net : Net) where
  unfoldable pub acceptable : UrlParts → Bool
  acceptable p =
      text_eq p.scheme (codes "https")
      && filled p.hostname
      && not (filled p.username)
      && not (filled p.password)
      && plain_port p.port
      && not (is_text p.fragment)
      && not (is_text p.query)

  abbrev pub checked_host : UrlParts → Option Text → Option (Text × Text)
  checked_host p none = none
  checked_host p (some name) =
      let host = net.lower name in
      if net.fullmatch host_pattern host then some (host, or_slash p.path) else none

  abbrev pub checked_parts : Option UrlParts → Option (Text × Text)
  checked_parts none = none
  checked_parts (some p) =
      let checked = checked_host p (net.idna (or_nothing p.hostname)) in
      if acceptable p then checked else none

  -- The host and the path; a ValueError is `none`.
  unfoldable pub target_url : Text → Option (Text × Text)
  target_url value =
      let checked = checked_parts (net.urlsplit value) in
      if ltb 2048 (length value) || any (λ c. ltb c 33) value then none else checked

  -- `SKYRECON_SCAN_HOSTS`
  unfoldable pub allowed_hosts : Text → List Text
  allowed_hosts setting =
      map (λ s. net.lower (net.strip s)) (keep (λ s. is_text (net.strip s)) (split_tags [] setting))

  abbrev pub all_global : List Text → Bool
  all_global [] = true
  all_global (a ∷ addresses) = net.is_global a && all_global addresses

  abbrev pub fetch : Text → Text → List Text → List Effect × Option Response
  fetch host path [] = ([], none)
  fetch host path (a ∷ addresses) =
      if all_global (a ∷ addresses)
      then (connected a host ∷ [], net.get a host path)
      else ([], none)

  abbrev pub fetch_from : Text → Text → Option (List Text) → List Effect × Option Response
  fetch_from host path none = ([], none)
  fetch_from host path (some answers) = fetch host path (merge_tags answers [])

  -- From the hosts that the operator allows.
  unfoldable pub collect : List Text → Text → List Effect × Option Response
  collect allowed url = elim (target_url url) [
    | none ↦ ([], none)
    | some (host, path) ↦
        let (effects, response) = fetch_from host path (net.getaddrinfo host) in
        if any (λ h. text_eq host h) allowed
        then (resolved host ∷ effects, response)
        else ([], none)
  ]

  -- The report of a response, or the 422; `assess` raises a ValueError on a target that is refused.
  unfoldable pub scan :
      {R : Type 0} → (Response → Option R) → List Text → Text → List Effect × Option R
  scan assess allowed url = elim (target_url url) [
    | none ↦ (audited "assessment.scan.failed" ∷ [], none)
    | some target ↦
        let (effects, response) = collect allowed url in
        let before = audited "assessment.scan.request" ∷ effects in
        elim response [
          | none ↦ (before ++ audited "assessment.scan.failed" ∷ [], none)
          | some r ↦ elim (assess r) [
            | none ↦ (before ++ audited "assessment.scan.failed" ∷ [], none)
            | some report ↦ (before ++ audited "assessment.scan.complete" ∷ [], some report)
          ]
        ]
  ]
