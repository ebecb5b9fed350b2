-- ===== src/Assessment/Native/Unique.antt =====
-- The figures of an import of app/native_reports.py.
use skyrecon.Base.{
  ◌+◌, ◌-◌, ◌≤◌, ◌≡◌, ◌≢◌, refl, sym, subst, ◌∙◌, arith, inl, inr, some, List, [], ◌∷◌, Text,
  text_eq, text_eq_iff, All, ltb, length, Bool-cases, Option-cases, true_ne_false,
}
use skyrecon.Assessment.Sarif.{Json}
use skyrecon.Assessment.Native.{
  Hashes, Format, Observation, NativeFinding, NativeReport, read_native, put_unique, unique_of,
  normalize_native,
}

-- No two findings have the same id.
abbrev pub DistinctIds : List NativeFinding → Type 0
DistinctIds [] = Unit
DistinctIds (f ∷ fs) = All (λ (g : NativeFinding). f.id ≢ g.id) fs × DistinctIds fs

module _ (hs : Hashes) where
  put_unique-All :
      (P : Text → Type 0) (f : NativeFinding) (gs : List NativeFinding)
      → P f.id
      → All (λ (g : NativeFinding). P g.id) gs
      → All (λ (g : NativeFinding). P g.id) (put_unique hs f gs)
  unfolding put_unique
  put_unique-All P f [] h hs' = (h, tt)
  put_unique-All P f (g ∷ gs) h hs' = elim (Bool-cases (text_eq g.id f.id)) [
    | inl e ↦ rw e (h, hs'.1)
    | inr e ↦ rw e (hs'.0, put_unique-All P f gs h hs'.1)
  ]

  put_unique-DistinctIds :
      (f : NativeFinding) (gs : List NativeFinding)
      → DistinctIds gs
      → DistinctIds (put_unique hs f gs) × (length (put_unique hs f gs) ≤ length gs + 1)
  unfolding put_unique
  put_unique-DistinctIds f [] d = ((tt, tt), omega arith)
  put_unique-DistinctIds f (g ∷ gs) d = elim (Bool-cases (text_eq g.id f.id)) [
    | inl e ↦ rw e (
      (
        subst (λ i. All (λ (h : NativeFinding). i ≢ h.id) gs) ((text_eq_iff g.id f.id).0 e) d.0,
        d.1,
      ),
      omega arith,
    )
    | inr e ↦
        let (rest, len) = put_unique-DistinctIds f gs d.1 in
        rw e (
          (
            put_unique-All (λ i. g.id ≢ i) f gs
                (λ w. true_ne_false (sym ((text_eq_iff g.id f.id).1 w) ∙ e)) d.0,
            rest,
          ),
          omega (arith, len),
        )
  ]

  unique_of-DistinctIds :
      (fingerprint : Observation → Text) (os : List Observation) (unique : List NativeFinding)
      → DistinctIds unique
      → DistinctIds (unique_of hs fingerprint os unique)
        × (length (unique_of hs fingerprint os unique) ≤ length unique + length os)
  unfolding unique_of
  unique_of-DistinctIds fingerprint [] unique d = (d, omega arith)
  unique_of-DistinctIds fingerprint (o ∷ os) unique d =
      let (d1, l1) =
        put_unique-DistinctIds (record { id = fingerprint o; observation = o }) unique d in
      let (d2, l2) = unique_of-DistinctIds fingerprint os _ d1 in (d2, omega (arith, l1, l2))

-- An import that is not refused has at most 1000 findings, which number the distinct ones and the
-- removed duplicates together, and no two that are kept have the same id.
pub normalize_native-DistinctIds :
    (hs : Hashes) (fingerprint : Observation → Text) (kind : Format) (document : Json)
    (report : NativeReport)
    → normalize_native hs fingerprint kind document ≡ some report
    → (report.input_results ≡ report.unique_findings + report.duplicates_removed)
      × (report.input_results ≤ 1000)
      × (report.unique_findings ≡ length report.findings)
      × DistinctIds report.findings
unfolding normalize_native
normalize_native-DistinctIds hs fingerprint kind document report h =
    elim (Option-cases (read_native hs kind document)) [
      | inl e ↦ cc (rw e at h)
      | inr ((version, omitted, found), e) ↦ elim (Bool-cases (ltb 1000 (length found))) [
        | inl b ↦ cc (rw b at (rw e at h))
        | inr b ↦
            let unique = unique_of hs fingerprint found [] in
            let (d, len) = unique_of-DistinctIds hs fingerprint found [] tt in
            let is : record {
              version = version;
              evidence_sha256 = hs.sha256_json document;
              input_results = length found;
              unique_findings = length unique;
              duplicates_removed = length found - length unique;
              omitted_records = omitted;
              findings = unique;
            }
                ≡ report =
              cc (rw b at (rw e at h)) in
            subst
              (λ (r : NativeReport).
                (r.input_results ≡ r.unique_findings + r.duplicates_removed)
                × (r.input_results ≤ 1000)
                × (r.unique_findings ≡ length r.findings)
                × DistinctIds r.findings)
              is (omega (arith, len), ground (arith, b), refl, d)
      ]
    ]
