-- ===== src/Lib.antt =====
-- SkyRecon, a threat intelligence and detection platform: a model of its core with proofs.
--
-- The program's parts and where they are modelled:
--   - app/detect/rules.py, the rule language: Rules. `tokenize` is Rules/Tokens, over ASCII text as a
--     list of code points. The parser evaluates while it reads, as in the source: each method of
--     `_Parser` is a function of Rules/Parser of the same name on the tokens that are left. Rules/Values
--     holds the values, Rules/Operators the operators, Rules/Engine `validate_expression` and the
--     built-in rules. Rules/Parser/Grammar is the specification: trees, their text and their meaning.
--   - app/audit.py, the hash-chained log: Audit, with `canonical_ts` in Audit/Timestamps.
--   - app/security/ratelimit.py, the token buckets: RateLimit, on the dictionaries of Dict.
--   - app/security/rbac.py, roles and permissions: Rbac.
--   - app/routers/auth.py, accounts and sessions: Auth, `login` by stages in Auth/Login, and `refresh`,
--     `logout` and `change_password` in Auth/Refresh, `mfa_enroll` and `mfa_confirm` in Auth/Enrolment.
--     They charge the limiter of RateLimit and append to the log of Audit; the tables are lists in a
--     state that each handler returns.
--   - app/security/crypto.py, the vault that seals every sensitive column: Vault, over a record of the
--     library's functions; Vault/Toy is an instance of it for the examples.
--   - app/security/rotation.py, the pass to a new master key: Rotation. A row is a dictionary of columns.
--   - `_raise_alert` of app/services.py and `triage` of app/routers/intel.py: Alerts, which seals and
--     indexes with Vault. Alerts/Rotated is about its rows under Rotation.
--   - app/ioc/scoring.py: Scoring, on exact fractions.
--   - app/ioc/parser.py, what a text holds of indicators, and app/ioc/observable.py: IocParser.
--   - app/ioc/enrich.py: Enrichment, whose modifiers move the scores.
--   - `upsert_indicator`, `bulk_ingest`, `read_indicator` and `universal_search` of app/services.py and
--     `retire_indicator` of app/routers/intel.py: Indicators, which parses with IocParser, seals with
--     Vault, scores with Scoring and enriches with Enrichment. `deep_enrich_indicator` and its snapshots:
--     Indicators/Live.
--   - The rule handlers of app/routers/intel.py, `seed_builtin_rules` and the pass of `ingest_event`
--     over the rules, app/services.py: Detection. It evaluates with Rules, scores with Scoring and raises
--     with Alerts.
--   - The whole of `ingest_event`, with `_match_indicators`, `_facts_for` and `_score_anomaly`: Ingest,
--     which composes IocParser, Indicators, Detection and Alerts.
--   - app/routers/admin.py: Auth/Admin for the users, behind the guard of Auth/Access, and Rotation/Keys
--     for `rotate_keys`.
--   - app/assessment.py and app/routers/assessment.py: Assessment, with `phone_lookup` in
--     Assessment/Phones, the checks of `assess` in Assessment/Headers, app/sarif_import.py in
--     Assessment/Sarif, app/native_reports.py in Assessment/Native, and the other handlers in
--     Assessment/Handlers. `read_alert` of app/services.py: Alerts/Reading.
--   - app/detect/mitre.py: Mitre. app/ioc/stix.py: Stix, whose Stix/Pattern has a reader of patterns.
--   - app/deps.py, the guards of every request, and the claims of app/security/tokens.py: Auth/Access.
--   - app/security/passwords.py and app/security/mfa.py: Passwords. app/config.py: Settings.
-- Base holds the notation and the lemmas on lists, options and numbers that all share.
--
-- Bounds and fuel. A call of the parser costs a unit of fuel and `parse` gives a fixed multiple of
-- the number of tokens; the scanner has the length of its text as fuel. `out_of_fuel` is a result of its
-- own, apart from a raised RuleError, so that an equation with `ok` says that the fuel was enough. The
-- floats of the limiter are exact numbers, in units of a fraction of a token; those of Scoring are exact
-- fractions, which are rounded where the code rounds.
--
-- Parameters. base64, UTF-8, AES-GCM and HKDF with what their documentation promises; SHA-256, JSON
-- text, `isoformat`, the database driver, float parsing and printing, regular expressions, the Unicode
-- methods of `str`, `ipaddress`, logarithms and powers, URL splitting, DNS and TLS, Argon2, TOTP, JWT
-- decoding, the keyed index of Auth and the formatting of times are functions that the definitions
-- take. The model of app/detect/anomaly.py is an interface of Ingest/Anomaly, and the lookups of
-- app/intel_live.py, which ask public registries, are one of Indicators/Live. Auth takes the password
-- policy and the opening of the sealed MFA secret as functions of its opaque values.
--
-- Not modelled: the inside of the anomaly model, which is floating-point arithmetic; the
-- catalogue of app/routers/assessment.py; and the reading handlers of app/routers/intel.py. The engine
-- set-up, network calls, the command line and the JavaScript console are left aside as input and
-- output.
-- The Python recursion limit is not modelled: a call of the parser always returns. Nor are the exceptions of
-- the rule engine that nothing catches: an OverflowError of `float` on an int beyond the range of a double,
-- and what `re` raises on an extreme pattern besides `re.error`.
-- A handler runs to its end on one state; only the enrolment of a second factor is given a user that
-- was loaded from an earlier one.
pub mod Base
pub mod IocParser
pub mod Enrichment
pub mod Ingest
pub mod Assessment
pub mod Passwords
pub mod Settings
pub mod Alerts
pub mod Scoring
pub mod Detection
pub mod Mitre
pub mod Stix
pub mod Indicators
pub mod Audit
pub mod Auth
pub mod Dict
pub mod RateLimit
pub mod Rbac
pub mod Rotation
pub mod Rules
pub mod Vault
