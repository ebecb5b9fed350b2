-- ===== src/Enrichment/Tests.antt =====
-- A domain without vowels on a risky TLD.
use skyrecon.Base.{◌≡◌, refl, false, ◌&&◌, [], ◌∷◌, Text, codes, text_eq, leb, split_once, rstrip}
use skyrecon.Scoring.{round_even}
use skyrecon.IocParser.{domain, before}
use skyrecon.IocParser.Tests.{lenient}
use skyrecon.Enrichment.{
  Analysis, counter, count_char, shannon_entropy, consonant_ratio, dga_score, dga_likelihood,
  split_on, risk_of, tld_risk, machine_generated, risky_tld, add_reason, host_signals, enrich_host,
  host_in, enrich,
}

-- Every character carries five bits.
abbrev pub toy_analysis : Analysis
toy_analysis = record {
  library = lenient;
  is_alpha = λ c. leb 97 c;
  is_digit = λ c. leb 48 c && leb c 57;
  search = λ p s. false;
  match_start = λ p s. false;
  unit = 1;
  minus_log2 = λ c n. 5;
  located = λ s. [];
}

abbrev drawn : Text
drawn = codes "xkqzwvbnxkqz.tk"

dga_run : dga_likelihood toy_analysis drawn ≡ 561
unfolding dga_likelihood dga_score shannon_entropy consonant_ratio counter count_char before
    split_once round_even
dga_run = refl

enrich_runs :
    (enrich toy_analysis drawn domain).reasons ≡ machine_generated 561 ∷ risky_tld (codes "tk") ∷ []
unfolding enrich enrich_host host_in host_signals add_reason dga_likelihood dga_score
    shannon_entropy consonant_ratio counter count_char before split_once round_even tld_risk
    split_on risk_of rstrip text_eq
enrich_runs = refl
