-- ===== src/Assessment/Phones.antt =====
-- `phone_lookup` of app/assessment.py.
--
-- The handler turns each exception into the 422; here all of them are `none`. The file of the directory
-- is read by the library, and `fromisoformat` with it.
pub mod Owners
use skyrecon.Base.{
  ℕ, ◌+◌, ◌*◌, ◌≤◌, ◌≡◌, refl, sym, ap, subst, ◌∙◌, arith, inl, inr, String, Bool, true, false, not,
  ◌&&◌, Option, none, some, List, [], ◌∷◌, Text, codes, text_eq, ltb, leb, leb→le, ◌==◌, any, keep,
  if◌then◌else◌, Bool-cases, Option-cases,
}
use skyrecon.Rules.Operators.{has_prefix}
use skyrecon.IocParser.{Pattern}
use skyrecon.Assessment.{Net}
use skyrecon.Assessment.Sarif.{Json, null, string, object, bind, find_member, get, truthy}

-- An instant, in seconds, and whether it has a timezone.
pub record Stamp : Type 0 where
  pub aware : Bool
  pub seconds : ℕ

-- The configured file: its size, and its contents if they can be read.
pub record Directory : Type 0 where
  pub size : ℕ
  pub contents : Option Json

pub record Phones : Type 0 where
  pub net : Net
  pub directory : Option Directory
  pub fromisoformat : Json → Option Stamp
  pub now : ℕ

pub data Region : Type 0 where
  india united_kingdom north_america not_resolved : Region

-- The owner's name, the source and the time of verification, where the directory attributes the number.
pub record Listing : Type 0 where
  pub owner : Json
  pub source : Text
  pub verified_at : Json

pub record PhoneReply : Type 0 where
  pub number : Text
  pub numbering_region : Region
  pub listing : Option Listing

abbrev pub phone_pattern : Pattern
phone_pattern = record { pattern = "\\+[1-9][0-9]{6,14}"; ignore_case = false }

-- `re.sub(r"[ ()-]", "", value)`
unfoldable pub without_marks : Text → Text
without_marks value = keep (λ c. not (any (λ d. c == d) (codes " ()-"))) value

unfoldable pub region_of : Text → Region
region_of number =
    if has_prefix number (codes "+91")
    then india
    else if has_prefix number (codes "+44")
    then united_kingdom
    else if has_prefix number (codes "+1")
    then north_america
    else not_resolved

abbrev pub is_text_value : String → Json → Bool
is_text_value s (string t) = text_eq t (codes s)
is_text_value s _ = false

abbrev pub as_text : Json → Option Text
as_text (string s) = some s
as_text _ = none

abbrev pub ninety_days : ℕ
ninety_days = 90 * 86400

module _ (ph : Phones) where
  -- `0 <= age <= 90 * 86400`
  unfoldable pub is_recent : Stamp → Bool
  is_recent s = leb s.seconds ph.now && leb ph.now (s.seconds + ninety_days)

  unfoldable pub stamped : Listing → Stamp → Option (Option Listing)
  stamped listing stamp =
      if stamp.aware then some (if is_recent stamp then some listing else none) else none

  unfoldable pub dated : Json → Text → Json → Option (Option Listing)
  dated name source at =
      bind (ph.fromisoformat at)
        (stamped (record { owner = name; source = source; verified_at = at }))

  unfoldable pub attributed : Json → Option (Option Listing)
  attributed entry = bind (get "kind" null entry) λ kind. bind (get "name" null entry) λ name.
      bind (get "source_url" (string []) entry) λ url.
        bind (get "verified_at" (string []) entry) λ at.
          let listing = bind (as_text url) λ source.
            let made = dated name source at in
            if has_prefix source (codes "https://") then made else some none in
          if is_text_value "public_business" kind && truthy name then listing else some none

  abbrev pub entry_listing : Option Json → Option (Option Listing)
  entry_listing none = some none
  entry_listing (some entry) =
      let listing = attributed entry in if truthy entry then listing else some none

  abbrev pub entry_of : Text → Json → Option (Option Json)
  entry_of number (object ms) = some (find_member number ms)
  entry_of number _ = none

  unfoldable pub listing_for : Text → Option Directory → Option (Option Listing)
  listing_for number none = some none
  listing_for number (some d) =
      let listing = bind d.contents λ contents. bind (entry_of number contents) entry_listing in
      if ltb 1000000 d.size then none else listing

  unfoldable pub phone_lookup : Text → Option PhoneReply
  phone_lookup value =
      let number = without_marks value in
      let reply = bind (listing_for number ph.directory) λ listing.
        some (record { number = number; numbering_region = region_of number; listing = listing }) in
      if ph.net.fullmatch phone_pattern number then reply else none
