-- ===== src/Enrichment/Reasons.antt =====
-- The reasons that app/ioc/enrich.py gives for a modifier.
use skyrecon.Base.{
  ℕ, ◌+◌, ◌*◌, ◌≤◌, ◌≡◌, min, true, false, some, List, [], ◌∷◌, Text, codes, text_eq, any, length,
  All,
}
use skyrecon.Rules.Operators.{contains, has_prefix}
use skyrecon.IocParser.{Address, dot}
use skyrecon.Enrichment.{
  Analysis, dga_likelihood, split_on, tld_risk, url_shorteners, Reason, not_routable, shortener,
  deep_chain, executable, bare_address, plaintext, machine_generated, risky_tld, keywords,
  Enrichment, payload_pattern, bare_pattern, last_of,
}

-- What a reason raises the modifier by, and lowers it by, in hundredths.
abbrev pub raised_by : Reason → ℕ
raised_by not_routable = 0
raised_by shortener = 10
raised_by deep_chain = 10
raised_by executable = 25
raised_by bare_address = 15
raised_by plaintext = 5
raised_by (machine_generated d) = 30
raised_by (risky_tld s) = 20
raised_by (keywords hits) = min 25 (8 * length hits)

abbrev pub lowered_by : Reason → ℕ
lowered_by not_routable = 40
lowered_by _ = 0

abbrev pub sum_by : (Reason → ℕ) → List Reason → ℕ
sum_by f [] = 0
sum_by f (r ∷ rs) = f r + sum_by f rs

-- That a reason is true of the value, its lower-case form and its host.
abbrev pub Holds : Analysis → Text → Text → Text → Reason → Type 0
Holds an value v host not_routable =
    (ip : Address) × (an.library.ip_address value ≡ some ip) × (ip.is_global ≡ false)
Holds an value v host shortener = any (λ u. text_eq host u) url_shorteners ≡ true
Holds an value v host deep_chain = 5 ≤ length (split_on dot [] host)
Holds an value v host executable = an.search payload_pattern v ≡ true
Holds an value v host bare_address = an.match_start bare_pattern v ≡ true
Holds an value v host plaintext = has_prefix v (codes "http://") ≡ true
Holds an value v host (machine_generated d) = (d ≡ dga_likelihood an host) × (550 ≤ d)
Holds an value v host (risky_tld s) =
    (s ≡ last_of [] (split_on dot [] host)) × (60 ≤ tld_risk an host)
Holds an value v host (keywords hits) = (1 ≤ length hits) × All (λ w. contains v w ≡ true) hits

abbrev Explained : Analysis → Text → Text → Text → Enrichment → Type 0
Explained an value v host out =
    (out.risk_modifier + sum_by lowered_by out.reasons ≡ 100 + sum_by raised_by out.reasons)
    × All (Holds an value v host) out.reasons
