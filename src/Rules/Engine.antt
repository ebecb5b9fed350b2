-- ===== src/Rules/Engine.antt =====
-- `evaluate`, `validate_expression` and the built-in rules.
use skyrecon.Base.{ℕ, String, Bool, true, false, List, [], ◌∷◌}
use skyrecon.Rules.Values.{Text, Value, finite, number, text, bool}
use skyrecon.Rules.Tokens.{codes}
use skyrecon.Rules.Operators.{Runtime}
use skyrecon.Rules.Results.{Result, ok, rule_error, out_of_fuel}
use skyrecon.Rules.Parser.{evaluate}

abbrev fact : String → Value → Text × Value
fact name v = (codes name, v)

abbrev int : ℕ → Value
int n = number (finite false n 1)

-- The dummy facts of `validate_expression`.
abbrev pub probe : List (Text × Value)
probe =
    fact "severity" (text (codes "medium"))
    ∷ fact "confidence" (int 50)
    ∷ fact "bytes_out" (int 0)
    ∷ fact "bytes_in" (int 0)
    ∷ fact "duration_ms" (int 0)
    ∷ fact "ioc_type" (text (codes "domain"))
    ∷ fact "dga" (int 0)
    ∷ fact "tld_risk" (int 0)
    ∷ fact "entropy" (int 0)
    ∷ fact "source" (text (codes "test"))
    ∷ fact "payload" (text (codes ""))
    ∷ fact "src_ip" (text (codes ""))
    ∷ fact "dst_ip" (text (codes ""))
    ∷ fact "internal" (bool false)
    ∷ fact "risk" (int 0)
    ∷ fact "tags" (text (codes ""))
    ∷ fact "kind" (text (codes "log"))
    ∷ []

abbrev pub accepted : Result Bool → Bool
accepted (ok b) = true
accepted rule_error = false
accepted out_of_fuel = false

-- The Boolean of `validate_expression`; its message is not modelled.
unfoldable pub validate_expression : Runtime → Text → Bool
validate_expression rt s = accepted (evaluate (record { runtime = rt; facts = probe }) s)

-- The expressions of `BUILTIN_RULES`. A backslash is code point 92.
abbrev pub builtin_expressions : List Text
builtin_expressions =
    codes "payload matches \"http://[^\\s]*\\.(exe|scr|dll|hta|ps1|bat)\""
    ∷ codes "dga > 0.6 and tld_risk > 0.5"
    ∷ codes "payload contains \"powershell\" and payload matches \"-e(nc|ncodedcommand)?\\s\""
    ∷ codes "bytes_out > 5000000 and bytes_in < 100000"
    ∷ codes
        "ioc_type == \"url\" and (payload contains \"login\" or payload contains \"verify\") and tld_risk > 0.5"
    ∷ codes "duration_ms < 1200 and bytes_out < 2048 and bytes_out > 0 and ioc_type != \"\""
    ∷ []
