-- ===== src/Indicators/Live/History.antt =====
-- What the history of an indicator keeps over the calls of `deep_enrich_indicator` of app/services.py.
use skyrecon.Base.{
  ◌≡◌, sym, ap, subst, ◌∙◌, ◌⊎◌, inl, inr, Bool, true, Option, none, some, List, [], ◌∷◌, ◌++◌,
  Text, text_eq, text_eq_iff, text_lt, Among, keep, Bool-cases,
}
use skyrecon.Vault.{Crypt, ok, crypto_error, unicode_error, then_crypt, open_sealed}
use skyrecon.Indicators.{
  Indicator, Storage, IocAudit, indicator_field, insert_tag, merge_tags, split_tags,
}
use skyrecon.Indicators.Live.{
  IndicatorSnapshot, SnapshotHistory, Enriched, Lookups, Taken, DeepEnrichment, distinct_of, ips_of,
  cert_of, of_indicator, is_worth, add_snapshot, snapshot_history, blank, lookup, deep_enrich_value,
  deep_enrich_indicator,
}

Among-insert_tag : (x t : Text) (us : List Text) → Among x (t ∷ us) → Among x (insert_tag t us)
unfolding insert_tag
Among-insert_tag x t [] m = m
Among-insert_tag x t (u ∷ us) m = elim (Bool-cases (text_eq t u)) [
  | inl e ↦ rw e (elim m [ inl w ↦ inl (w ∙ (text_eq_iff t u).0 e) | inr m' ↦ m' ])
  | inr e ↦ elim (Bool-cases (text_lt t u)) [
    | inl l ↦ rw (e, l) m
    | inr l ↦
        rw (e, l)
          (elim m [
            | inl w ↦ inr (Among-insert_tag x t us (inl w))
            | inr m' ↦ elim m' [ inl w ↦ inl w | inr n ↦ inr (Among-insert_tag x t us (inr n)) ]
          ])
  ]
]

Among-merge_tags :
    (x : Text) (ts us : List Text) → Among x ts ⊎ Among x us → Among x (merge_tags ts us)
unfolding merge_tags
Among-merge_tags x [] us m = elim m [ inl n ↦ absurd n | inr n ↦ n ]
Among-merge_tags x (t ∷ ts) us m = Among-insert_tag x t (merge_tags ts us) (elim m [
  | inl n ↦ elim n [ inl e ↦ inl e | inr n' ↦ inr (Among-merge_tags x ts us (inl n')) ]
  | inr n ↦ inr (Among-merge_tags x ts us (inr n))
])

Among-distinct_of :
    (column : IndicatorSnapshot → List Text) (x : Text) (s : IndicatorSnapshot)
    (past : List IndicatorSnapshot)
    → Among s past
    → Among x (column s)
    → Among x (distinct_of column past)
unfolding distinct_of
Among-distinct_of column x s [] m h = absurd m
Among-distinct_of column x s (s' ∷ past) m h =
    Among-merge_tags x (column s') (distinct_of column past) (elim m [
      | inl e ↦ inl (subst (λ z. Among x (column z)) e h)
      | inr m' ↦ inr (Among-distinct_of column x s past m' h)
    ])

Among-keep :
    (p : IndicatorSnapshot → Bool) (s : IndicatorSnapshot) (xs : List IndicatorSnapshot)
    → Among s xs
    → p s ≡ true
    → Among s (keep p xs)
Among-keep p s [] m h = absurd m
Among-keep p s (x ∷ xs) m h = elim (Bool-cases (p x)) [
  | inl t ↦ rw t (elim m [ inl e ↦ inl e | inr m' ↦ inr (Among-keep p s xs m' h) ])
  | inr t ↦ rw t (elim m [ inl e ↦ cc (ap p e, h, t) | inr m' ↦ Among-keep p s xs m' h ])
]

Among-append :
    (s : IndicatorSnapshot) (xs ys : List IndicatorSnapshot) → Among s xs → Among s (xs ++ ys)
Among-append s [] ys m = absurd m
Among-append s (x ∷ xs) ys m = elim m [ inl e ↦ inl e | inr m' ↦ inr (Among-append s xs ys m') ]

Among-add_snapshot :
    (snap s : IndicatorSnapshot) (xs : List IndicatorSnapshot)
    → Among s xs
    → Among s (add_snapshot snap xs)
unfolding add_snapshot
Among-add_snapshot snap s xs m = elim (Bool-cases (is_worth snap)) [
  | inl e ↦ rw e (Among-append s xs (snap ∷ []) m)
  | inr e ↦ rw e m
]

-- What a snapshot saw is listed.
abbrev pub Lists : DeepEnrichment → IndicatorSnapshot → Type 0
Lists out s =
    ((x : Text) → Among x (ips_of s) → Among x out.history.distinct_ips)
    × ((x : Text)
        → Among x (split_tags [] s.nameservers)
        → Among x out.history.distinct_nameservers)
    × ((x : Text)
        → Among x (cert_of s.cert_issuer s.cert_serial)
        → Among x out.history.distinct_certs)

history-Lists :
    (id : Text) (snapshots : List IndicatorSnapshot) (s : IndicatorSnapshot) (out : DeepEnrichment)
    → out.history ≡ snapshot_history id snapshots
    → Among s (keep (of_indicator id) snapshots)
    → Lists out s
unfolding snapshot_history
history-Lists id snapshots s out e m =
    subst
      (λ (h : SnapshotHistory).
        ((x : Text) → Among x (ips_of s) → Among x h.distinct_ips)
        × ((x : Text) → Among x (split_tags [] s.nameservers) → Among x h.distinct_nameservers)
        × ((x : Text) → Among x (cert_of s.cert_issuer s.cert_serial) → Among x h.distinct_certs))
      (sym e)
      (
        λ x. Among-distinct_of ips_of x s _ m,
        λ x. Among-distinct_of (λ z. split_tags [] z.nameservers) x s _ m,
        λ x. Among-distinct_of (λ z. cert_of z.cert_issuer z.cert_serial) x s _ m,
      )

abbrev history_in : Option (DeepEnrichment × IocAudit) → SnapshotHistory
history_in none = record {
  observations = 0;
  since = none;
  distinct_ips = [];
  distinct_nameservers = [];
  distinct_certs = [];
}
history_in (some (out, call)) = out.history

deep_enrich_value-Lists :
    (lk : Lookups) (lower : Text → Text) (new : Taken) (actor : Option Text) (r : Indicator)
    (value : Option Text) (before after : List IndicatorSnapshot) (out : DeepEnrichment)
    (call : IocAudit)
    → deep_enrich_value lk lower new actor r value before ≡ (some (out, call), after)
    → ((s : IndicatorSnapshot) → Among s before → Among s after)
      × ((s : IndicatorSnapshot) → Among s after → of_indicator r.id s ≡ true → Lists out s)
unfolding deep_enrich_value snapshot_history
deep_enrich_value-Lists lk lower new actor r none before after out call h = cc h
deep_enrich_value-Lists lk lower new actor r (some []) before after out call h = cc h
deep_enrich_value-Lists lk lower new actor r (some (c ∷ v)) before after out call h =
    let snap = (lookup lk lower r.ioc_type (c ∷ v) (blank new.id r.id new.now)).1 in
    let stored : add_snapshot snap before ≡ after = ap (λ (e : Enriched). e.1) h in
    let listed : snapshot_history r.id (add_snapshot snap before) ≡ out.history =
      ap (λ (e : Enriched). history_in e.0) h in
    (
      λ s m. subst (λ xs. Among s xs) stored (Among-add_snapshot snap s before m),
      λ s m is_its.
          history-Lists r.id after s out (sym listed ∙ ap (λ xs. snapshot_history r.id xs) stored)
            (Among-keep (of_indicator r.id) s after m is_its),
    )

opened-Lists :
    (lk : Lookups) (lower : Text → Text) (new : Taken) (actor : Option Text) (r : Indicator)
    (value : Crypt (Option Text)) (before after : List IndicatorSnapshot) (out : DeepEnrichment)
    (call : IocAudit)
    → (then_crypt value λ v. ok (deep_enrich_value lk lower new actor r v before))
      ≡ ok (some (out, call), after)
    → ((s : IndicatorSnapshot) → Among s before → Among s after)
      × ((s : IndicatorSnapshot) → Among s after → of_indicator r.id s ≡ true → Lists out s)
opened-Lists lk lower new actor r (ok v) before after out call h =
    deep_enrich_value-Lists lk lower new actor r v before after out call (cc h)
opened-Lists lk lower new actor r crypto_error before after out call h = cc h
opened-Lists lk lower new actor r unicode_error before after out call h = cc h

-- A live lookup that answers loses no stored snapshot, and its answer lists every address, name server and
-- certificate of every snapshot that is then stored for the indicator.
pub deep_enrich_indicator-Lists :
    (st : Storage) (lk : Lookups) (new : Taken) (actor : Option Text) (r : Indicator)
    (before after : List IndicatorSnapshot) (out : DeepEnrichment) (call : IocAudit)
    → deep_enrich_indicator st lk new actor r before ≡ ok (some (out, call), after)
    → ((s : IndicatorSnapshot) → Among s before → Among s after)
      × ((s : IndicatorSnapshot) → Among s after → of_indicator r.id s ≡ true → Lists out s)
unfolding deep_enrich_indicator
deep_enrich_indicator-Lists st lk new actor r before after out call h =
    opened-Lists lk st.library.lower new actor r
      (open_sealed st.crypto st.vault (some r.value_sealed) (indicator_field "value" r.id)) before
      after out call h
