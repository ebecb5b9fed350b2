-- ===== src/Mitre/Tests.antt =====
-- The stages of given techniques.
use skyrecon.Base.{◌≡◌, refl, List, [], ◌∷◌, Text, codes, text_eq}
use skyrecon.Mitre.{find_technique, tally_up, coverage}
use skyrecon.Mitre.Coverage.{total}

abbrev same : Text → Text
same t = t

abbrev ids : List Text
ids = codes "T1105" ∷ codes "T9999" ∷ codes "T1071.001" ∷ codes "T1486" ∷ []

ids_run : total (coverage same same ids) ≡ 3
unfolding coverage tally_up find_technique text_eq
ids_run = refl
