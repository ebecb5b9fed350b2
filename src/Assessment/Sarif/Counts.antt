-- ===== src/Assessment/Sarif/Counts.antt =====
-- The figures of an import: app/sarif_import.py.
use skyrecon.Base.{
  ℕ, ◌+◌, ◌≤◌, ◌≡◌, ◌≢◌, refl, sym, subst, ◌∙◌, arith, inl, inr, Bool, false, ◌&&◌, ◌||◌, Option,
  none, some, List, [], ◌∷◌, ◌++◌, Text, codes, text_eq, text_eq_iff, All, All-append, any, ltb,
  leb, length, length-append, if◌then◌else◌, Bool-cases, true_ne_false,
}
use skyrecon.Assessment.Sarif.{
  Json, null, string, empty_array, plain_text, truthy, Printer, Fingerprint, Finding, Progress,
  Report, bind, get, field, as_list, is_seen, read_result, add_finding, read_results, add_source,
  read_run, read_runs, report_of, is_sarif, normalize_sarif,
}

-- No two findings have the same id.
abbrev pub DistinctIds : List Finding → Type 0
DistinctIds [] = Unit
DistinctIds (f ∷ fs) = All (λ (g : Finding). f.id ≢ g.id) fs × DistinctIds fs

bind-some :
    {A B : Type 0} (o : Option A) (f : A → Option B) (b : B)
    → bind o f ≡ some b
    → (a : A) × (o ≡ some a) × (f a ≡ some b)
bind-some none f b h = cc h
bind-some (some a) f b h = (a, refl, h)

is_seen-false :
    (id : Text) (fs : List Finding)
    → any (λ (f : Finding). text_eq f.id id) fs ≡ false
    → All (λ (f : Finding). f.id ≢ id) fs
is_seen-false id [] h = tt
is_seen-false id (f ∷ fs) h = elim (Bool-cases (text_eq f.id id)) [
  | inl e ↦ cc (rw e at h)
  | inr e ↦
      (λ w. true_ne_false (sym ((text_eq_iff f.id id).1 w) ∙ e), is_seen-false id fs (rw e at h))
]

DistinctIds-append :
    (f : Finding) (fs : List Finding)
    → All (λ (g : Finding). g.id ≢ f.id) fs
    → DistinctIds fs
    → DistinctIds (fs ++ f ∷ [])
DistinctIds-append f [] h d = (tt, tt)
DistinctIds-append f (g ∷ fs) h d =
    (All-append _ fs (f ∷ []) d.0 (h.0, tt), DistinctIds-append f fs h.1 d.1)

module _ (pr : Printer) (fp : Fingerprint) where
  -- One more finding at most, and none that is there already.
  Kept : Progress → ℕ → Progress → Type 0
  Kept st n st' =
      (st'.count ≡ st.count)
      × (length st'.findings ≤ length st.findings + n)
      × (DistinctIds st.findings → DistinctIds st'.findings)

  add_finding-Kept : (f : Finding) (st : Progress) → Kept st 1 (add_finding pr fp f st)
  unfolding Kept add_finding is_seen
  add_finding-Kept f st = elim (Bool-cases (any (λ (g : Finding). text_eq g.id f.id) st.findings)) [
    | inl e ↦ rw e (refl, omega arith, λ d. d)
    | inr e ↦ rw e (
      refl,
      omega (arith, length-append st.findings (f ∷ [])),
      DistinctIds-append f st.findings (is_seen-false f.id st.findings e),
    )
  ]

  read_results-Kept :
      (name : Text) (results : List Json) (st st' : Progress)
      → read_results pr fp name results st ≡ some st'
      → Kept st (length results) st'
  unfolding Kept read_results
  read_results-Kept name [] st st' h =
      let same : st ≡ st' = cc h in rw⁻¹ same (refl, omega arith, λ d. d)
  read_results-Kept name (result ∷ results) st st' h =
      let (f, e, rest) = bind-some (read_result pr fp name result) _ st' h in
      let (c1, l1, d1) = add_finding-Kept f st in
      let (c2, l2, d2) = read_results-Kept name results (add_finding pr fp f st) st' rest in
      (c2 ∙ c1, omega (arith, l1, l2), λ d. d2 (d1 d))

  -- What holds of the progress between two runs.
  Counted : Progress → Type 0
  Counted st = (length st.findings ≤ st.count) × (st.count ≤ 1000) × DistinctIds st.findings

  abbrev Ends : Option Progress → Type 0
  Ends o = (st : Progress) → o ≡ some st → Counted st

  bind-Ends :
      {A : Type 0} (o : Option A) (f : A → Option Progress)
      → ((a : A) → Ends (f a))
      → Ends (bind o f)
  bind-Ends none f h st e = cc e
  bind-Ends (some a) f h st e = h a st e

  results-Counted :
      (external : Bool) (name : Text) (version : Json) (results : List Json) (st : Progress)
      → Counted st
      → let st1 = add_source pr fp name version (length results) st in
        Ends (if external || ltb 1000 st1.count then none else read_results pr fp name results st1)
  unfolding Counted Kept add_source
  results-Counted external name version results st (few, most, distinct) st' e =
      let st1 = add_source pr fp name version (length results) st in
      elim (Bool-cases (external || ltb 1000 st1.count)) [
        | inl b ↦ cc (rw b at e)
        | inr b ↦
            let (c, l, d) = read_results-Kept name results st1 st' (rw b at e) in
            let bound : st1.count ≤ 1000 = ground (arith, b) in
            (omega (arith, c, l, few), omega (arith, c, bound), d distinct)
      ]

  read_run-Counted : (run : Json) (st : Progress) → Counted st → Ends (read_run pr fp run st)
  unfolding read_run
  read_run-Counted run st c =
      bind-Ends (get "externalPropertyFileReferences" null run) _ λ external.
        bind-Ends (bind (field "tool" run) (field "driver")) _ λ driver.
          bind-Ends (bind (field "name" driver) (plain_text pr 200)) _ λ name.
            bind-Ends (get "version" (string (codes "unspecified")) driver) _ λ version.
              bind-Ends (bind (get "results" empty_array run) as_list) _
                λ results. results-Counted (truthy external) name version results st c

  read_runs-Counted :
      (runs : List Json) (st : Progress) → Counted st → Ends (read_runs pr fp runs st)
  unfolding read_runs
  read_runs-Counted [] st c st' e = subst Counted (cc e) c
  read_runs-Counted (run ∷ runs) st c st' e =
      let (st1, e1, e2) = bind-some (read_run pr fp run st) (read_runs pr fp runs) st' e in
      read_runs-Counted runs st1 (read_run-Counted run st c st1 e1) st' e2

-- An import that is not refused has at most 1000 results, which number the findings and the removed
-- duplicates together, and no two findings have the same id.
pub normalize_sarif-Counted :
    (pr : Printer) (fp : Fingerprint) (document : Json) (report : Report)
    → normalize_sarif pr fp document ≡ some report
    → (report.input_results ≡ report.unique_findings + report.duplicates_removed)
      × (report.input_results ≤ 1000)
      × (report.unique_findings ≡ length report.findings)
      × DistinctIds report.findings
unfolding normalize_sarif report_of Counted
normalize_sarif-Counted pr fp document report h =
    let start : Progress = record { sources = []; findings = []; count = 0 } in
    let (version, _, h1) = bind-some (get "version" null document) _ report h in
    let (runs, _, h2) = bind-some (bind (get "runs" null document) as_list) _ report h1 in
    elim (Bool-cases (is_sarif pr fp version && leb 1 (length runs) && leb (length runs) 20)) [
      | inr b ↦ cc (rw b at h2)
      | inl b ↦
          let (st, e, made) =
            bind-some (read_runs pr fp runs start) (λ st. some (report_of pr fp document st)) report
              (rw b at h2) in
          let (few, most, distinct) =
            read_runs-Counted pr fp runs start (omega arith, omega arith, tt) st e in
          let is : report_of pr fp document st ≡ report = cc made in
          subst
            (λ (r : Report).
              (r.input_results ≡ r.unique_findings + r.duplicates_removed)
              × (r.input_results ≤ 1000)
              × (r.unique_findings ≡ length r.findings)
              × DistinctIds r.findings)
            is (omega (arith, few), most, refl, distinct)
    ]
