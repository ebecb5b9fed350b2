-- ===== src/Assessment/Scans.antt =====
-- Where a scan connects to: `scan` of app/routers/assessment.py over `collect` of app/assessment.py.
use skyrecon.Base.{
  ◌≡◌, refl, subst, arith, inl, inr, String, Bool, true, ◌&&◌, Option, none, some, List, [], ◌∷◌,
  ◌++◌, Text, text_eq, text_eq_iff, All, All-append, Among, any, Bool-cases, Option-cases,
}
use skyrecon.Indicators.{merge_tags}
use skyrecon.Assessment.{
  Net, Response, Effect, audited, connected, target_url, all_global, fetch, fetch_from, collect,
  scan,
}

-- A connection goes to a global address among the answers for the host of the URL, which is allowed.
abbrev pub Permitted : Net → List Text → Text → Effect → Type 0
Permitted net allowed url (connected a host) =
    ((path : Text) × (target_url net url ≡ some (host, path)))
    × Among host allowed
    × ((answers : List Text) × (net.getaddrinfo host ≡ some answers)
        × Among a (merge_tags answers []))
    × (net.is_global a ≡ true)
Permitted net allowed url _ = Unit

any-Among : (host : Text) (xs : List Text) → any (λ h. text_eq host h) xs ≡ true → Among host xs
any-Among host [] h = cc h
any-Among host (x ∷ xs) h = elim (Bool-cases (text_eq host x)) [
  | inl e ↦ inl ((text_eq_iff host x).0 e)
  | inr e ↦ inr (any-Among host xs (rw e at h))
]

and_left : (a b : Bool) → (a && b) ≡ true → a ≡ true
and_left a b h = grind arith

fetch_from-Permitted :
    (net : Net) (allowed : List Text) (url host path : Text) (answers : Option (List Text))
    → target_url net url ≡ some (host, path)
    → Among host allowed
    → net.getaddrinfo host ≡ answers
    → All (Permitted net allowed url) (fetch_from net host path answers).0
fetch_from-Permitted net allowed url host path none t w g = tt
fetch_from-Permitted net allowed url host path (some answers) t w g =
    go (merge_tags answers []) refl
  where
    go :
        (addresses : List Text)
        → addresses ≡ merge_tags answers []
        → All (Permitted net allowed url) (fetch net host path addresses).0
    go [] e = tt
    go (a ∷ addresses) e = elim (Bool-cases (all_global net (a ∷ addresses))) [
      | inl h ↦ rw h (
        (
          (path, t),
          w,
          (answers, g, subst (Among a) e (inl refl)),
          and_left (net.is_global a) (all_global net addresses) h,
        ),
        tt,
      )
      | inr h ↦ rw h tt
    ]

collect-Permitted :
    (net : Net) (allowed : List Text) (url : Text)
    → All (Permitted net allowed url) (collect net allowed url).0
unfolding collect
collect-Permitted net allowed url = elim (Option-cases (target_url net url)) [
  | inl e ↦ rw (collect, e) tt
  | inr ((host, path), e) ↦ elim (Bool-cases (any (λ h. text_eq host h) allowed)) [
    | inl w ↦
        rw (collect, e)
          (rw w (
            tt,
            fetch_from-Permitted net allowed url host path (net.getaddrinfo host) e
                (any-Among host allowed w) refl,
          ))
    | inr w ↦ rw (collect, e) (rw w tt)
  ]
]

-- The first entry of the log stands in front of everything that leaves the machine.
abbrev pub StartsAudited : List Effect → Type 0
StartsAudited [] = ⊥
StartsAudited (audited action ∷ effects) = Unit
StartsAudited (_ ∷ effects) = ⊥

-- A scan is audited before anything leaves the machine, and every connection that it makes goes to a
-- globally routable address among the answers for the host of the requested URL, a host on the
-- operator's list.
pub scan-Permitted :
    {R : Type 0} (net : Net) (assess : Response → Option R) (allowed : List Text) (url : Text)
    → StartsAudited (scan net assess allowed url).0
      × All (Permitted net allowed url) (scan net assess allowed url).0
unfolding scan
scan-Permitted net assess allowed url = elim (Option-cases (target_url net url)) [
  | inl e ↦ rw (scan, e) (tt, (tt, tt))
  | inr (target, e) ↦
      let before = collect-Permitted net allowed url in
      let (effects, response) = collect net allowed url in
      let closed : (action : String)
          → All (Permitted net allowed url)
              (audited "assessment.scan.request" ∷ effects ++ audited action ∷ []) =
        λ action. (tt, All-append _ effects (audited action ∷ []) before (tt, tt)) in
      elim (Option-cases response) [
        | inl n ↦ rw (scan, e) (rw n (tt, closed "assessment.scan.failed"))
        | inr (r, n) ↦ elim (Option-cases (assess r)) [
          | inl a ↦ rw (scan, e) (rw n (rw a (tt, closed "assessment.scan.failed")))
          | inr (report, a) ↦ rw (scan, e) (rw n (rw a (tt, closed "assessment.scan.complete")))
        ]
      ]
]
