-- ===== src/Indicators.antt =====
-- Storing indicators: `upsert_indicator` and `bulk_ingest` of app/services.py, and `retire_indicator` of
-- app/routers/intel.py.
--
-- A call reads the clock once.
pub mod Again
pub mod Reading
pub mod Search
pub mod Live
mod Tests
use skyrecon.Base.{
  ℕ, suc, ◌+◌, String, Bool, true, false, not, ◌&&◌, Option, none, some, List, [], ◌∷◌, ◌++◌, Text,
  codes, text_eq, text_lt, ltb, ◌==◌, min, max, first, if◌then◌else◌,
}
use skyrecon.IocParser.{IocType, Library, ParsedIoc, refang, normalize, validate}
use skyrecon.IocParser.Extract.{extract, detect_type}
use skyrecon.Vault.{Crypto, Vault, Draws, FieldContext, seal_text, blind_index}
use skyrecon.Scoring.{reinforce}

pub record Indicator : Type 0 where
  pub id : Text
  pub value_index : Text
  pub value_sealed : Text
  pub ioc_type : IocType
  pub source : String
  pub confidence : ℕ
  pub severity : String
  pub tags : Text
  pub tlp : String
  pub notes_sealed : Option Text
  pub first_seen : ℕ
  pub last_seen : ℕ
  pub hit_count : ℕ
  pub is_active : Bool
  pub created_by : Option Text

-- The arguments of `upsert_indicator`, no tags as the empty list.
pub record Sighting : Type 0 where
  pub value : Text
  pub ioc_type : Option IocType
  pub source : String
  pub severity : String
  pub confidence : ℕ
  pub tags : List Text
  pub tlp : String
  pub notes : Option Text

-- The key, and what a request draws and reads: the id of a new row, the random bytes, the clock.
pub record Storage : Type 0 where
  pub library : Library
  pub crypto : Crypto
  pub vault : Vault

pub record Fresh : Type 0 where
  pub id : Text
  pub value_draws : Draws
  pub notes_draws : Draws
  pub now : ℕ

pub record IocAudit : Type 0 where
  pub action : String
  pub actor_id : Option Text
  pub target : Text

abbrev pub comma : ℕ
comma = 44

-- The pieces of `tags.split(",")` that are not empty, behind what was read of one.
unfoldable pub split_tags : Text → Text → List Text
split_tags piece [] = elim piece [ [] ↦ [] | c ∷ s ↦ (c ∷ s) ∷ [] ]
split_tags piece (c ∷ s) =
    let rest = split_tags [] s in
    let on = split_tags (piece ++ c ∷ []) s in
    if c == comma then elim piece [ [] ↦ rest | d ∷ t ↦ (d ∷ t) ∷ rest ] else on

unfoldable pub join_tags : List Text → Text
join_tags [] = []
join_tags (t ∷ []) = t
join_tags (t ∷ u ∷ ts) = t ++ comma ∷ join_tags (u ∷ ts)

unfoldable pub insert_tag : Text → List Text → List Text
insert_tag t [] = t ∷ []
insert_tag t (u ∷ us) =
    if text_eq t u then u ∷ us else if text_lt t u then t ∷ u ∷ us else u ∷ insert_tag t us

-- `sorted(set(...))` of both lists.
unfoldable pub merge_tags : List Text → List Text → List Text
merge_tags [] us = us
merge_tags (t ∷ ts) us = insert_tag t (merge_tags ts us)

unfoldable pub find_by_index : Text → List Indicator → Option Indicator
find_by_index index rows = first (λ (r : Indicator). text_eq r.value_index index) rows

unfoldable pub put_indicator : Indicator → List Indicator → List Indicator
put_indicator r [] = []
put_indicator r (s ∷ rows) = (if text_eq s.id r.id then r else s) ∷ put_indicator r rows

abbrev pub merged_tags : List Text → Text → Text
merged_tags [] old = old
merged_tags (t ∷ ts) old = join_tags (merge_tags (split_tags [] old) (merge_tags (t ∷ ts) []))

unfoldable pub sighted_again : ℕ → Sighting → Indicator → Indicator
sighted_again now b r = record r {
  hit_count = r.hit_count + 1;
  last_seen = now;
  confidence = reinforce r.confidence b.source 1;
  tags = merged_tags b.tags r.tags;
  is_active = true;
}

abbrev pub indicator_field : String → Text → FieldContext
indicator_field column id = record {
  table = codes "indicators";
  column = codes column;
  record_id = id;
}

unfoldable pub sealed_notes : Storage → Fresh → Option Text → Option Text
sealed_notes st new none = none
sealed_notes st new (some []) = none
sealed_notes st new (some (c ∷ s)) =
    some (seal_text st.crypto st.vault new.notes_draws (c ∷ s) (indicator_field "notes" new.id))

unfoldable pub new_indicator :
    Storage → Fresh → Option Text → Sighting → IocType → Text → Text → Indicator
new_indicator st new actor b ioc_type clean index = record {
  id = new.id;
  value_index = index;
  value_sealed =
      seal_text st.crypto st.vault new.value_draws clean (indicator_field "value" new.id);
  ioc_type = ioc_type;
  source = b.source;
  confidence = max 0 (min 100 b.confidence);
  severity = b.severity;
  tags = join_tags (merge_tags b.tags []);
  tlp = b.tlp;
  notes_sealed = sealed_notes st new b.notes;
  first_seen = new.now;
  last_seen = new.now;
  hit_count = 0;
  is_active = true;
  created_by = actor;
}

-- `ioc_type or parser.detect_type(value)`
abbrev pub resolved : Library → Sighting → Option IocType
resolved lib b = elim b.ioc_type [ some t ↦ some t | none ↦ detect_type lib b.value ]

abbrev pub Stored : Type 0
Stored = Indicator × Bool × List Indicator × IocAudit

abbrev pub found_or_new :
    Storage
    → Fresh
    → Option Text
    → Sighting
    → IocType
    → Text
    → Text
    → List Indicator
    → Option Indicator
    → Stored
found_or_new st new actor b t clean index rows (some r) =
    let r' = sighted_again new.now b r in
    (
      r',
      false,
      put_indicator r' rows,
      record { action = "ioc.reinforce"; actor_id = actor; target = r'.id },
    )
found_or_new st new actor b t clean index rows none =
    let r = new_indicator st new actor b t clean index in
    (r, true, rows ++ r ∷ [], record { action = "ioc.create"; actor_id = actor; target = r.id })

unfoldable pub store_clean :
    Storage → Fresh → Option Text → Sighting → IocType → Text → List Indicator → Stored
store_clean st new actor b t clean rows =
    let index = blind_index st.crypto st.vault clean (codes "indicator") in
    found_or_new st new actor b t clean index rows (find_by_index index rows)

-- A ValueError is `none`.
unfoldable pub upsert_indicator :
    Storage → Fresh → Option Text → Sighting → List Indicator → Option Stored
upsert_indicator st new actor b rows = elim (resolved st.library b) [
  | none ↦ none
  | some t ↦
      let clean = normalize st.library (refang st.library b.value) t in
      if validate st.library clean t then some (store_clean st new actor b t clean rows) else none
]

-- What `bulk_ingest` returns, less the reasons of the rejected.
pub record Bulk : Type 0 where
  pub created : List Text
  pub reinforced : List Text
  pub rejected : List Text

unfoldable pub ingest_all :
    Storage
    → (ℕ → Fresh)
    → Option Text
    → (Text → IocType → Sighting)
    → ℕ
    → List ParsedIoc
    → List Indicator
    → Bulk × List Indicator × List IocAudit
ingest_all st fresh actor sighting n [] rows =
    (record { created = []; reinforced = []; rejected = [] }, rows, [])
ingest_all st fresh actor sighting n (item ∷ items) rows =
    elim (upsert_indicator st (fresh n) actor (sighting item.value item.ioc_type) rows) [
      | none ↦
          let (out, rows', calls) = ingest_all st fresh actor sighting (n + 1) items rows in
          (record out { rejected = item.value ∷ out.rejected }, rows', calls)
      | some (r, true, rows1, call) ↦
          let (out, rows', calls) = ingest_all st fresh actor sighting (n + 1) items rows1 in
          (record out { created = item.value ∷ out.created }, rows', call ∷ calls)
      | some (r, false, rows1, call) ↦
          let (out, rows', calls) = ingest_all st fresh actor sighting (n + 1) items rows1 in
          (record out { reinforced = item.value ∷ out.reinforced }, rows', call ∷ calls)
    ]

-- The sighting of an extracted item, with the defaults of `upsert_indicator`.
abbrev pub bulk_sighting : String → String → List Text → Text → IocType → Sighting
bulk_sighting source severity tags value t = record {
  value = value;
  ioc_type = some t;
  source = source;
  severity = severity;
  confidence = 50;
  tags = tags;
  tlp = "amber";
  notes = none;
}

unfoldable pub bulk_ingest :
    Storage
    → (ℕ → Fresh)
    → Option Text
    → Text
    → String
    → String
    → List Text
    → List Indicator
    → Bulk × List Indicator × List IocAudit
bulk_ingest st fresh actor text source severity tags rows =
    let (out, rows', calls) =
      ingest_all st fresh actor (bulk_sighting source severity tags) 0
        (extract st.library text false) rows in
    (out, rows', calls ++ record { action = "ioc.bulk_ingest"; actor_id = actor; target = [] } ∷ [])

unfoldable pub find_indicator : Text → List Indicator → Option Indicator
find_indicator id rows = first (λ (r : Indicator). text_eq r.id id) rows

unfoldable pub retired : Indicator → Indicator
retired r = record r { is_active = false }

-- No row is the 404.
unfoldable pub retire_indicator : Text → Text → List Indicator → Option (List Indicator × IocAudit)
retire_indicator user_id id rows = elim (find_indicator id rows) [
  | none ↦ none
  | some r ↦ some (
    put_indicator (retired r) rows,
    record { action = "ioc.retire"; actor_id = some user_id; target = id },
  )
]
