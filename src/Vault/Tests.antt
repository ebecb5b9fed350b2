-- ===== src/Vault/Tests.antt =====
-- A vault over the toy library.
use skyrecon.Base.{◌≡◌, refl, arith, ◌⊎◌, some, [], ◌∷◌, codes, text_eq, rstrip, split_once}
use skyrecon.Vault.{
  ok, crypto_error, FieldContext, Vault, aad, b64e, b64d, kek, seal_text, seal, decoded,
  split_sealed, open_parts, open_encoded, open_text, open_sealed,
}
use skyrecon.Vault.Fields.{open_sealed-seal, open_text-context, Forgery}
use skyrecon.Vault.Toy.{toy, toy-IsCrypto, draws, draws_salted}

abbrev key : Vault
key = record { master = 5 ∷ [] }

abbrev title : FieldContext
title = record { table = codes "alerts"; column = codes "title"; record_id = codes "a1" }

abbrev detail : FieldContext
detail = record { table = codes "alerts"; column = codes "detail"; record_id = codes "a1" }

opens_runs :
    open_text toy key (seal_text toy key (draws 3) (codes "C2") title) title ≡ ok (codes "C2")
unfolding open_text open_encoded open_parts split_sealed split_once seal_text decoded aad b64e b64d
    kek rstrip toy draws text_eq
opens_runs = refl

moved_runs :
    open_text toy key (seal_text toy key (draws 3) (codes "C2") title) detail ≡ crypto_error
unfolding open_text open_encoded open_parts split_sealed split_once seal_text decoded aad b64e b64d
    kek rstrip toy draws text_eq
moved_runs = refl

open_sealed-seal_example :
    open_sealed toy key (seal toy key (draws 3) (some (codes "C2")) title) title
    ≡ ok (some (codes "C2"))
open_sealed-seal_example =
    open_sealed-seal toy key (draws 3) (some (codes "C2")) title toy-IsCrypto (draws_salted 3)

open_text-context_example : (title ≡ title) ⊎ Forgery toy
open_text-context_example =
    open_text-context toy key (draws 3) (codes "C2") title title (codes "C2") toy-IsCrypto
      (draws_salted 3) (grind arith) (grind arith) opens_runs
