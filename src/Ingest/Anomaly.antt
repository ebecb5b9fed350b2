-- ===== src/Ingest/Anomaly.antt =====
-- `_score_anomaly` of app/services.py: when the model of app/detect/anomaly.py is fitted again, and on
-- what.
--
-- The model is an interface, `Detector`; its scores are in ten-thousandths, to which it rounds.
use skyrecon.Base.{
  ℕ, ◌-◌, String, Bool, true, false, not, ◌||◌, Option, some, List, [], ◌∷◌, map, Text, codes, leb,
  drop, length, if◌then◌else◌,
}
use skyrecon.Vault.{Crypto, Vault, Crypt, ok, FieldContext, open_sealed}

pub record Event : Type 0 where
  pub id : Text
  pub received_at : ℕ
  pub source : String
  pub kind : String
  pub payload_sealed : Text
  pub src_ip_sealed : Option Text
  pub dst_ip_sealed : Option Text
  pub src_ip_index : Option Text
  pub dst_ip_index : Option Text
  pub bytes_out : ℕ
  pub bytes_in : ℕ
  pub duration_ms : ℕ
  pub risk_score : ℕ

-- What the model reads of an event.
pub record Probe : Type 0 where
  pub bytes_out : ℕ
  pub bytes_in : ℕ
  pub duration_ms : ℕ
  pub received_at : ℕ
  pub payload : Option Text

pub record Detector (M : Type 0) : Type 0 where
  pub fit : List Probe → M → M
  pub is_trained : M → Bool
  pub score : M → Probe → ℕ
  pub explain : M → Probe → List Text

-- `_anomaly` and `_anomaly_fitted_at`.
pub record Fitted (M : Type 0) : Type 0 where
  pub model : M
  pub fitted_at : ℕ

abbrev pub event_field : String → Text → FieldContext
event_field column id = record { table = codes "events"; column = codes column; record_id = id }

-- Any exception makes the text empty.
abbrev pub text_or_empty : Crypt (Option Text) → Option Text
text_or_empty (ok t) = t
text_or_empty _ = some []

unfoldable pub probe_of : Event → Option Text → Probe
probe_of e payload = record {
  bytes_out = e.bytes_out;
  bytes_in = e.bytes_in;
  duration_ms = e.duration_ms;
  received_at = e.received_at;
  payload = payload;
}

unfoldable pub stored_probe : Crypto → Vault → Event → Probe
stored_probe lib v e =
    probe_of e
      (text_or_empty (open_sealed lib v (some e.payload_sealed) (event_field "payload" e.id)))

-- `total[-500:]`
unfoldable pub sample : Crypto → Vault → List Event → List Probe
sample lib v events = map (stored_probe lib v) (drop (length events - 500) events)

abbrev pub has_rows : {A : Type 0} → List A → Bool
has_rows [] = false
has_rows (x ∷ xs) = true

module _ {M : Type 0} (detector : Detector M) where
  unfoldable pub is_stale : Fitted M → List Event → Bool
  is_stale st events = leb 25 (length events - st.fitted_at) || not (detector.is_trained st.model)

  unfoldable pub refit : Crypto → Vault → List Event → Fitted M → Fitted M
  refit lib v events st =
      let rows = sample lib v events in
      if is_stale st events
      then if has_rows rows
        then record { model = detector.fit rows st.model; fitted_at = length events }
        else st
      else st

  unfoldable pub score_anomaly :
      Crypto → Vault → List Event → Event → Text → Fitted M → (ℕ × List Text) × Fitted M
  score_anomaly lib v events e payload st =
      let st' = refit lib v events st in
      let p = probe_of e (some payload) in
      if detector.is_trained st'.model
      then ((detector.score st'.model p, detector.explain st'.model p), st')
      else ((0, []), st')
