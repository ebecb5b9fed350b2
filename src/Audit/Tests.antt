-- ===== src/Audit/Tests.antt =====
-- Small logs. The hash is a stand-in that keeps two fields, so that it has collisions.
use skyrecon.Base.{ℕ, ◌≡◌, ◌⊎◌, refl, String, true, none, some, List, [], ◌∷◌}
use skyrecon.Audit.{
  DateTime, ahead, utc_wall, Digest, genesis, Body, AuditEntry, Request, order_by_seq, walk, rows,
  verify_chain,
}
use skyrecon.Audit.Record.{IsNumbered, record_all, verify-record_all}
use skyrecon.Audit.Tamper.{Collision, bodies, FirstBad, verify-tamper, verify-FirstBad}

abbrev iso : ℕ → String
iso n = "1970-01-01T00:00:00.000000"

abbrev sha : Body → Digest
sha b = b.action

-- The driver drops a zone and keeps the instant.
abbrev driver : DateTime → DateTime
driver dt = record { wall = utc_wall dt.wall dt.tzinfo; tzinfo = none }

abbrev noon : DateTime
noon = record { wall = 5000; tzinfo = some (ahead 60) }

abbrev request : String → Request
request action = record {
  action = action;
  actor_id = none;
  target = "x";
  outcome = "ok";
  detail_sealed = none;
  at = noon;
}

abbrev requests : List Request
requests = request "auth.login" ∷ request "ioc.create" ∷ request "auth.logout" ∷ []

verify-record_all_example :
    let log = record_all iso sha requests [] in
    (verify_chain iso sha driver log ≡ (true, none)) × IsNumbered 0 log
verify-record_all_example = verify-record_all iso sha driver (λ dt. refl) requests

abbrev entry : AuditEntry
entry = record {
  seq = 1;
  at = noon;
  actor_id = none;
  action = "auth.login";
  target = "x";
  outcome = "ok";
  detail_sealed = none;
  prev_hash = genesis;
  entry_hash = "auth.login";
}

verify-tamper_example :
    (bodies iso sha genesis (rows driver (entry ∷ []))
      ≡ bodies iso sha genesis (rows driver (record entry { target = "y" } ∷ [])))
    ⊎ Collision iso sha
unfolding verify_chain walk order_by_seq
verify-tamper_example =
    verify-tamper iso sha driver (entry ∷ []) (record entry { target = "y" } ∷ []) refl refl refl
      refl

verify-FirstBad_example :
    FirstBad iso sha genesis
      (rows driver (entry ∷ record entry { seq = 2; prev_hash = "lost" } ∷ []))
      2
unfolding verify_chain walk order_by_seq
verify-FirstBad_example =
    verify-FirstBad iso sha driver (entry ∷ record entry { seq = 2; prev_hash = "lost" } ∷ []) 2
      refl
