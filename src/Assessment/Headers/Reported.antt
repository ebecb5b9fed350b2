-- ===== src/Assessment/Headers/Reported.antt =====
-- What the report of `assess` of app/assessment.py says of a header that is not there.
use skyrecon.Base.{
  ◌≡◌, ap, subst, inl, inr, String, Option, none, some, List, [], ◌∷◌, ◌++◌, Among, Option-cases,
}
use skyrecon.Assessment.{target_url}
use skyrecon.Assessment.Headers.{
  Evidence, HeaderFinding, HeaderReport, Words, header_checks, header, found_if, missing_header,
  missing_headers, policy_findings, assess,
}

Among-append_left : {A : Type 0} (a : A) (xs ys : List A) → Among a xs → Among a (xs ++ ys)
Among-append_left a [] ys m = absurd m
Among-append_left a (x ∷ xs) ys m = elim m [
  | inl e ↦ inl e
  | inr m' ↦ inr (Among-append_left a xs ys m')
]

Among-append_right : {A : Type 0} (a : A) (xs ys : List A) → Among a ys → Among a (xs ++ ys)
Among-append_right a [] ys m = m
Among-append_right a (x ∷ xs) ys m = inr (Among-append_right a xs ys m)

Among-missing_headers :
    (ws : Words) (e : Evidence) (code name : String) (checks : List (String × String))
    → Among (code, name) checks
    → header ws name e ≡ none
    → Among (missing_header code name) (missing_headers ws checks e)
unfolding missing_headers
Among-missing_headers ws e code name [] m h = absurd m
Among-missing_headers ws e code name ((c, n) ∷ checks) m h = elim m [
  | inl w ↦
      let is_name : header ws n e ≡ none =
        subst (λ (x : String). header ws x e ≡ none) (ap (λ (p : String × String). p.1) w) h in
      rw is_name (inl (ap (λ (p : String × String). missing_header p.0 p.1) w))
  | inr m' ↦
      Among-append_right _ (found_if _ _) _ (Among-missing_headers ws e code name checks m' h)
]

abbrev findings_in : Option HeaderReport → List HeaderFinding
findings_in none = []
findings_in (some report) = report.findings

-- Each of the five checked headers that the response did not have is a finding of the report.
assess-Among :
    (ws : Words) (e : Evidence) (report : HeaderReport) (code name : String)
    → assess ws e ≡ some report
    → Among (code, name) header_checks
    → header ws name e ≡ none
    → Among (missing_header code name) report.findings
unfolding assess
assess-Among ws e report code name h m absent = elim (Option-cases (target_url ws.net e.url)) [
  | inl t ↦ cc (rw (assess, t) at h)
  | inr ((host, path), t) ↦
      subst (λ fs. Among (missing_header code name) fs) (ap findings_in (rw (assess, t) at h))
        (Among-append_left _ (missing_headers ws header_checks e) (policy_findings ws host e)
          (Among-missing_headers ws e code name header_checks m absent))
]
