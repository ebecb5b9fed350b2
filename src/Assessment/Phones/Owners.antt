-- ===== src/Assessment/Phones/Owners.antt =====
-- Whom a number is attributed to: `phone_lookup` of app/assessment.py.
use skyrecon.Base.{
  ◌+◌, ◌≤◌, ◌≡◌, refl, ap, subst, ◌∙◌, arith, inl, inr, Bool, true, false, ◌&&◌, Option, none, some,
  [], Text, codes, ltb, leb, leb→le, if◌then◌else◌, Bool-cases, Option-cases,
}
use skyrecon.Rules.Operators.{has_prefix}
use skyrecon.Assessment.Sarif.{Json, null, bool, array, object, string, bind, get, truthy}
use skyrecon.Assessment.Phones.{
  Stamp, Directory, Phones, Listing, PhoneReply, phone_pattern, without_marks, region_of,
  is_text_value, as_text, ninety_days, is_recent, stamped, dated, attributed, entry_listing,
  entry_of, listing_for, phone_lookup,
}

abbrev Lists : (Listing → Type 0) → Option (Option Listing) → Type 0
Lists P o = (l : Listing) → o ≡ some (some l) → P l

bind-Lists :
    {A : Type 0} (P : Listing → Type 0) (o : Option A) (f : A → Option (Option Listing))
    → ((a : A) → o ≡ some a → Lists P (f a))
    → Lists P (bind o f)
bind-Lists P none f h l e = cc e
bind-Lists P (some a) f h l e = h a refl l e

if-Lists :
    (P : Listing → Type 0) (b : Bool) (o : Option (Option Listing))
    → (b ≡ true → Lists P o)
    → Lists P (if b then o else some none)
if-Lists P true o h l e = h refl l e
if-Lists P false o h l e = cc e

and_true : (a b : Bool) → (a && b) ≡ true → (a ≡ true) × (b ≡ true)
and_true true b h = (refl, h)
and_true false b h = cc h

-- The source is https, and the verification was within the last ninety days.
abbrev pub Vouched : Phones → Listing → Type 0
Vouched ph l =
    (has_prefix l.source (codes "https://") ≡ true)
    × ((stamp : Stamp) × (ph.fromisoformat l.verified_at ≡ some stamp)
        × (stamp.aware ≡ true)
        × (stamp.seconds ≤ ph.now)
        × (ph.now ≤ stamp.seconds + ninety_days))

-- The entry is one of a public business, and the listing has its owner, source and time.
abbrev pub Copies : Json → Listing → Type 0
Copies entry l =
    ((kind : Json) × (get "kind" null entry ≡ some kind)
      × (is_text_value "public_business" kind ≡ true))
    × (get "name" null entry ≡ some l.owner)
    × (get "source_url" (string []) entry ≡ some (string l.source))
    × (get "verified_at" (string []) entry ≡ some l.verified_at)

-- The directory holds, under the number, the entry that the listing copies, in a file of at most a million
-- bytes.
abbrev pub Listed : Phones → Text → Listing → Type 0
Listed ph number l =
    (d : Directory) × (contents : Json) × (entry : Json) × (ph.directory ≡ some d)
    × (d.size ≤ 1000000)
    × (d.contents ≡ some contents)
    × (entry_of ph number contents ≡ some (some entry))
    × Copies entry l

as_text-string : (url : Json) (s : Text) → as_text url ≡ some s → url ≡ string s
as_text-string (string t) s h = ap string (cc h)
as_text-string null s h = cc h
as_text-string (bool b) s h = cc h
as_text-string (skyrecon.Assessment.Sarif.number i t) s h = cc h
as_text-string (array xs) s h = cc h
as_text-string (object ms) s h = cc h

module _ (ph : Phones) where
  stamped-Vouched :
      (listing : Listing) (stamp : Stamp)
      → has_prefix listing.source (codes "https://") ≡ true
      → ph.fromisoformat listing.verified_at ≡ some stamp
      → Lists (λ l. Vouched ph l × (listing ≡ l)) (stamped ph listing stamp)
  unfolding stamped is_recent
  stamped-Vouched listing stamp h e l made = elim (Bool-cases stamp.aware) [
    | inr a ↦ cc (rw a at made)
    | inl a ↦
        let recent = leb stamp.seconds ph.now && leb ph.now (stamp.seconds + ninety_days) in
        elim (Bool-cases recent) [
          | inr r ↦ cc (rw r at (rw a at made))
          | inl r ↦
              let is : listing ≡ l = cc (rw r at (rw a at made)) in
              let (low, high) = and_true _ _ r in
              (subst (Vouched ph) is (h, (stamp, e, a, leb→le _ _ low, leb→le _ _ high)), is)
        ]
  ]

  attributed-Vouched :
      (entry : Json) → Lists (λ l. Vouched ph l × Copies entry l) (attributed ph entry)
  unfolding attributed dated
  attributed-Vouched entry = bind-Lists _ (get "kind" null entry) _ λ kind k.
      bind-Lists _ (get "name" null entry) _ λ name n.
        bind-Lists _ (get "source_url" (string []) entry) _ λ url u.
          bind-Lists _ (get "verified_at" (string []) entry) _ λ at t.
            if-Lists _ (is_text_value "public_business" kind && truthy name) _ λ both.
              bind-Lists _ (as_text url) _ λ source w.
                if-Lists _ (has_prefix source (codes "https://")) _ λ h.
                  bind-Lists _ (ph.fromisoformat at) _ λ stamp e l made.
                    let listing : Listing = record {
                      owner = name;
                      source = source;
                      verified_at = at;
                    } in
                    let (vouched, is) = stamped-Vouched listing stamp h e l made in
                    (
                      vouched,
                      subst (Copies entry) is (
                        (kind, k, (and_true _ _ both).0),
                        n,
                        u ∙ ap some (as_text-string url source w),
                        t,
                      ),
                    )

  entry-Listed :
      (number : Text) (d : Directory) (contents : Json) (o : Option Json)
      → ph.directory ≡ some d
      → d.size ≤ 1000000
      → d.contents ≡ some contents
      → entry_of ph number contents ≡ some o
      → Lists (λ l. Vouched ph l × Listed ph number l) (entry_listing ph o)
  entry-Listed number d contents none n b c e l made = cc made
  entry-Listed number d contents (some entry) n b c e l made =
      if-Lists (λ l. Vouched ph l × Listed ph number l) (truthy entry) (attributed ph entry)
        (λ _ l made.
          let (vouched, copies) = attributed-Vouched entry l made in
          (vouched, (d, contents, entry, n, b, c, e, copies)))
        l made

  listing_for-Listed :
      (number : Text) (dir : Option Directory)
      → ph.directory ≡ dir
      → Lists (λ l. Vouched ph l × Listed ph number l) (listing_for ph number dir)
  unfolding listing_for
  listing_for-Listed number none n l made = cc made
  listing_for-Listed number (some d) n l made = elim (Bool-cases (ltb 1000000 d.size)) [
    | inl b ↦ cc (rw b at made)
    | inr b ↦
        bind-Lists (λ l. Vouched ph l × Listed ph number l) d.contents _
          (λ contents c.
            bind-Lists _ (entry_of ph number contents) _
              λ o e. entry-Listed number d contents o n (ground (arith, b)) c e)
          l (rw b at made)
  ]

-- An owner is only named from the operator's directory, of at most a million bytes: it holds under the
-- number an entry of a public business whose name, source and time of verification are those of the
-- answer, the source is https, and the verification, with a timezone, was within the last ninety days;
-- the number has the shape of an international one.
pub phone_lookup-Vouched :
    (ph : Phones) (value : Text) (reply : PhoneReply) (l : Listing)
    → phone_lookup ph value ≡ some reply
    → reply.listing ≡ some l
    → (ph.net.fullmatch phone_pattern reply.number ≡ true) × Vouched ph l × Listed ph reply.number l
unfolding phone_lookup
phone_lookup-Vouched ph value reply l h listed =
    let number = without_marks value in
    elim (Bool-cases (ph.net.fullmatch phone_pattern number)) [
      | inr b ↦ cc (rw b at h)
      | inl b ↦ elim (Option-cases (listing_for ph number ph.directory)) [
        | inl n ↦ cc (rw n at (rw b at h))
        | inr (o, n) ↦
            let is : record { number = number; numbering_region = region_of number; listing = o }
                ≡ reply =
              cc (rw n at (rw b at h)) in
            let same : o ≡ some l = ap (λ (r : PhoneReply). r.listing) is ∙ listed in
            let (vouched, at) =
              listing_for-Listed ph number ph.directory refl l (n ∙ ap some same) in
            subst
              (λ (r : PhoneReply).
                (ph.net.fullmatch phone_pattern r.number ≡ true)
                × Vouched ph l
                × Listed ph r.number l)
              is (b, vouched, at)
      ]
    ]
