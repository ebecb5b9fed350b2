-- ===== src/Vault/Fields.antt =====
-- Sealed values in their fields: round trip, binding to the field, and a new master key.
use skyrecon.Base.{
  ◌≡◌, refl, sym, ap, ◌∙◌, arith, ◌≢◌, ◌⊎◌, inl, inr, Option, none, some, ◌∷◌, ◌++◌, Text, Bytes,
  text_eq, text_eq_iff, split_once, split_once-append, Lacks, length, Option-cases, Bool-cases,
}
use skyrecon.Vault.{
  Crypto, Crypt, ok, version, bar, FieldContext, context_text, Vault, Draws, aad, seal_text, seal,
  then_crypt, decoded, open_text, open_sealed,
}
use skyrecon.Vault.Laws.{IsCrypto, open_text-seal_text}

-- Table and column names of the application: no bar in them.
abbrev pub IsPlain : FieldContext → Type 0
IsPlain ctx = Lacks bar ctx.table × Lacks bar ctx.column

context_text-split :
    (ctx : FieldContext)
    → IsPlain ctx
    → (split_once bar (context_text ctx)
        ≡ some (version, ctx.table ++ bar ∷ (ctx.column ++ bar ∷ ctx.record_id)))
      × (split_once bar (ctx.table ++ bar ∷ (ctx.column ++ bar ∷ ctx.record_id))
          ≡ some (ctx.table, ctx.column ++ bar ∷ ctx.record_id))
      × (split_once bar (ctx.column ++ bar ∷ ctx.record_id) ≡ some (ctx.column, ctx.record_id))
context_text-split ctx plain = (
  split_once-append bar version _ (omega arith),
  split_once-append bar ctx.table _ plain.0,
  split_once-append bar ctx.column _ plain.1,
)

some_pair_0 : {a b c d : Text} → ◌≡◌ {A = Option (Text × Text)} (some (a, b)) (some (c, d)) → a ≡ c
some_pair_0 e = cc

some_pair_1 : {a b c d : Text} → ◌≡◌ {A = Option (Text × Text)} (some (a, b)) (some (c, d)) → b ≡ d
some_pair_1 e = cc

context_text_injective :
    (a b : FieldContext) → IsPlain a → IsPlain b → context_text a ≡ context_text b → a ≡ b
context_text_injective a b pa pb e =
    let (a1, a2, a3) = context_text-split a pa in
    let (b1, b2, b3) = context_text-split b pb in
    let rests : a.table ++ bar ∷ (a.column ++ bar ∷ a.record_id)
        ≡ b.table ++ bar ∷ (b.column ++ bar ∷ b.record_id) =
      some_pair_1 (sym a1 ∙ ap (split_once bar) e ∙ b1) in
    let tables = sym a2 ∙ ap (split_once bar) rests ∙ b2 in
    let ids = sym a3 ∙ ap (split_once bar) (some_pair_1 tables) ∙ b3 in
    ground (arith, some_pair_0 tables, some_pair_0 ids, some_pair_1 ids)

module _ (lib : Crypto) where
  -- Two different associated data under which one ciphertext is valid for the same key and nonce.
  abbrev pub Forgery : Type 0
  Forgery =
      (key : Bytes) × (nonce : Bytes) × (plain : Bytes) × (plain' : Bytes) × (a : Bytes)
      × (a' : Bytes) × (a ≢ a')
      × (lib.aes_encrypt key nonce plain a ≡ lib.aes_encrypt key nonce plain' a')

decoded-encode : (lib : Crypto) → IsCrypto lib → (p : Text) → decoded lib (lib.encode p) ≡ ok p
unfolding decoded
decoded-encode lib laws p = rw (laws.decode-encode p, decoded) refl

aad_injective :
    (lib : Crypto) (a b : FieldContext)
    → IsCrypto lib
    → IsPlain a
    → IsPlain b
    → aad lib a ≡ aad lib b
    → a ≡ b
unfolding aad
aad_injective lib a b laws pa pb e =
    let texts =
      sym (laws.decode-encode (context_text a))
      ∙ ap lib.decode e
      ∙ laws.decode-encode (context_text b) in
    context_text_injective a b pa pb (cc texts)

-- A value that was sealed for a field opens there again, under the same key, to the same text, and a missing value stays missing.
pub open_sealed-seal :
    (lib : Crypto) (v : Vault) (d : Draws) (p : Option Text) (ctx : FieldContext)
    → IsCrypto lib
    → length d.salt ≡ 16
    → open_sealed lib v (seal lib v d p ctx) ctx ≡ ok p
unfolding open_sealed seal
open_sealed-seal lib v d none ctx laws h = refl
open_sealed-seal lib v d (some p) ctx laws h =
    let opened : open_text lib v (seal_text lib v d p ctx) ctx ≡ ok p =
      open_text-seal_text lib laws v d p ctx ctx h
      ∙ rw (laws.decrypt-encrypt d.dek d.nonce (lib.encode p) (aad lib ctx))
          (decoded-encode lib laws p) in
    ap (λ (t : Crypt Text). then_crypt t λ q. ok (some q)) opened

-- A sealed value opens in no field but its own: where it opens in a field, that is the field it was sealed for, or a ciphertext is exhibited that is valid under two different associated data.
pub open_text-context :
    (lib : Crypto) (v : Vault) (d : Draws) (p : Text) (ctx ctx' : FieldContext) (r : Text)
    → IsCrypto lib
    → length d.salt ≡ 16
    → IsPlain ctx
    → IsPlain ctx'
    → open_text lib v (seal_text lib v d p ctx) ctx' ≡ ok r
    → (ctx ≡ ctx') ⊎ Forgery lib
open_text-context lib v d p ctx ctx' r laws h plain plain' opens =
    let a = aad lib ctx in
    let a' = aad lib ctx' in
    let body = lib.aes_encrypt d.dek d.nonce (lib.encode p) a in
    elim (Bool-cases (text_eq a a')) [
      | inl e ↦ inl (aad_injective lib ctx ctx' laws plain plain' ((text_eq_iff a a').0 e))
      | inr e ↦ elim (Option-cases (lib.aes_decrypt d.dek d.nonce body a')) [
        | inl refused ↦
            ground (arith, opens, open_text-seal_text lib laws v d p ctx ctx' h, refused)
        | inr (q, accepted) ↦ inr (
          d.dek,
          d.nonce,
          lib.encode p,
          q,
          a,
          a',
          (λ (same : a ≡ a'). ground (arith, e, (text_eq_iff a a').1 same)),
          sym (laws.encrypt-decrypt d.dek d.nonce body a' q accepted),
        )
      ]
    ]
