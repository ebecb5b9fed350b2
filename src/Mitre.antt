-- ===== src/Mitre.antt =====
-- The ATT&CK lookup of app/detect/mitre.py.
--
-- `str.strip` and `str.upper` are the library's.
pub mod Coverage
mod Tests
use skyrecon.Base.{
  ℕ, suc, ◌+◌, String, Bool, true, false, Option, none, some, List, [], ◌∷◌, ◌++◌, map, Text, codes,
  text_eq, str_eq, ◌==◌, keep, first, any, not, if◌then◌else◌,
}

pub record Technique : Type 0 where
  pub id : Text
  pub name : String
  pub tactic : String

abbrev technique : String → String → String → Technique
technique id name tactic = record { id = codes id; name = name; tactic = tactic }

-- `TECHNIQUES`
abbrev pub techniques : List Technique
techniques =
    technique "T1027" "Obfuscated Files or Information" "Defense Evasion"
    ∷ technique "T1030" "Data Transfer Size Limits" "Exfiltration"
    ∷ technique "T1041" "Exfiltration Over C2 Channel" "Exfiltration"
    ∷ technique "T1059.001" "PowerShell" "Execution"
    ∷ technique "T1068" "Exploitation for Privilege Escalation" "Privilege Escalation"
    ∷ technique "T1071.001" "Web Protocols" "Command and Control"
    ∷ technique "T1105" "Ingress Tool Transfer" "Command and Control"
    ∷ technique "T1110" "Brute Force" "Credential Access"
    ∷ technique "T1189" "Drive-by Compromise" "Initial Access"
    ∷ technique "T1204.002" "Malicious File" "Execution"
    ∷ technique "T1486" "Data Encrypted for Impact" "Impact"
    ∷ technique "T1490" "Inhibit System Recovery" "Impact"
    ∷ technique "T1547" "Boot or Logon Autostart Execution" "Persistence"
    ∷ technique "T1566.001" "Spearphishing Attachment" "Initial Access"
    ∷ technique "T1566.002" "Spearphishing Link" "Initial Access"
    ∷ technique "T1568.002" "Domain Generation Algorithms" "Command and Control"
    ∷ technique "T1573" "Encrypted Channel" "Command and Control"
    ∷ technique "T1595" "Active Scanning" "Reconnaissance"
    ∷ []

-- `KILL_CHAIN_ORDER`
abbrev pub kill_chain_order : List String
kill_chain_order =
    "Reconnaissance" ∷ "Initial Access" ∷ "Execution" ∷ "Persistence" ∷ "Privilege Escalation"
    ∷ "Defense Evasion" ∷ "Credential Access" ∷ "Command and Control" ∷ "Exfiltration" ∷ "Impact"
    ∷ []

-- `TECHNIQUES.get(tid)`
unfoldable pub find_technique : Text → List Technique → Option Technique
find_technique tid ts = first (λ (t : Technique). text_eq t.id tid) ts

pub record Described : Type 0 where
  pub id : Text
  pub url : Text
  pub name : String
  pub tactic : String

-- `tid.replace('.', '/')`
abbrev pub slashed : Text → Text
slashed s = map (λ c. if c == 46 then 47 else c) s

abbrev pub described : Text → Option Technique → Described
described tid o =
    let url = codes "https://attack.mitre.org/techniques/" ++ (slashed tid ++ 47 ∷ []) in
    elim o [
      | none ↦ record { id = tid; url = url; name = "Unmapped technique"; tactic = "Unknown" }
      | some t ↦ record { id = tid; url = url; name = t.name; tactic = t.tactic }
    ]

abbrev pub is_blank : Text → Bool
is_blank [] = true
is_blank (c ∷ s) = false

-- One more in the stage of that name, if there is one.
abbrev pub bump : String → List (String × ℕ) → List (String × ℕ)
bump tactic [] = []
bump tactic ((stage, n) ∷ tally) =
    let rest = bump tactic tally in
    if str_eq stage tactic then (stage, n + 1) ∷ tally else (stage, n) ∷ rest

abbrev pub count_technique : Option Technique → List (String × ℕ) → List (String × ℕ)
count_technique none tally = tally
count_technique (some t) tally = bump t.tactic tally

module _ (strip upper : Text → Text) where
  -- `describe` of a list of ids.
  unfoldable pub describe : List Text → List Described
  describe [] = []
  describe (t ∷ ts) =
      let rest = describe ts in
      let tid = upper (strip t) in
      if is_blank (strip t) then rest else described tid (find_technique tid techniques) ∷ rest

  -- The loop of `coverage` over the ids, from a tally.
  unfoldable pub tally_up : List Text → List (String × ℕ) → List (String × ℕ)
  tally_up [] tally = tally
  tally_up (tid ∷ ids) tally =
      tally_up ids (count_technique (find_technique (upper (strip tid)) techniques) tally)

  unfoldable pub coverage : List Text → List (String × ℕ)
  coverage ids = tally_up ids (map (λ stage. (stage, 0)) kill_chain_order)
