-- ===== src/Assessment/Handlers.antt =====
-- The handlers `import_native`, `review` and `phone` of app/routers/assessment.py.
--
-- A refusal is the 422, here `none`, and is not audited. `json.loads` of a report is the library's.
use skyrecon.Base.{ℕ, String, Option, some, Text}
use skyrecon.Assessment.Sarif.{Json, bind}
use skyrecon.Assessment.Phones.{Phones, PhoneReply, phone_lookup}
use skyrecon.Assessment.Native.{Hashes, Format, Observation, NativeReport, normalize_native}
use skyrecon.Assessment.Headers.{Words, Evidence, HeaderReport, assess}

-- What the audit entry of a handler has in its detail.
pub data AuditDetail : Type 0 where
  of_native : Format → Text → ℕ → ℕ → ℕ → ℕ → AuditDetail
  of_evidence : HeaderReport → AuditDetail
  of_phone : Text → AuditDetail

pub record AssessmentAudit : Type 0 where
  pub action : String
  pub actor_id : Text
  pub detail : AuditDetail

unfoldable pub import_native :
    Hashes
    → (Observation → Text)
    → (Text → Option Json)
    → Text
    → Format
    → Text
    → Option (NativeReport × AssessmentAudit)
import_native hs fingerprint loads user_id format report_json = bind (loads report_json) λ document.
    bind (normalize_native hs fingerprint format document) λ report. some (
      report,
      record {
        action = "assessment.tool-report";
        actor_id = user_id;
        detail =
            of_native format report.evidence_sha256 report.input_results report.unique_findings
              report.duplicates_removed report.omitted_records;
      },
    )

unfoldable pub review : Words → Text → Evidence → Option (HeaderReport × AssessmentAudit)
review ws user_id body = bind (assess ws body) λ report. some (
  report,
  record { action = "assessment.evidence"; actor_id = user_id; detail = of_evidence report },
)

unfoldable pub phone : Phones → Text → Text → Option (PhoneReply × AssessmentAudit)
phone ph user_id number = bind (phone_lookup ph number) λ reply. some (
  reply,
  record { action = "assessment.phone"; actor_id = user_id; detail = of_phone reply.number },
)
