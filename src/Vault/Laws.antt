-- ===== src/Vault/Laws.antt =====
-- That what was sealed opens again, and only in the field that it was sealed for.
use skyrecon.Base.{
  ℕ, zero, suc, ◌≡◌, refl, sym, ap, ◌∙◌, arith, ◌<◌, ◌+◌, ◌-◌, ◌%◌, some, List, [], ◌∷◌, ◌++◌, Text,
  Bytes, text_eq, split_once-append, rstrip, rstrip-append, replicate, Lacks, take, drop, length,
}
use skyrecon.Vault.{
  Crypto, ok, version, nonce_bytes, dot, equals_sign, FieldContext, Vault, Draws, aad, b64e, b64d,
  kek, dek_label, seal_text, or_error, then_crypt, decoded, split_sealed, open_parts, open_encoded,
  open_text,
}

-- An encoding ends in less than four characters of padding that fill its last group of four, and
-- has neither padding nor a dot in front of them.
pub record IsEncoding (text : Text) : Type 0 where
  pub body : Text
  pub pads : ℕ
  pub splits : text ≡ body ++ replicate pads equals_sign
  pub few : pads < 4
  pub whole : (length body + pads) % 4 ≡ 0
  pub unpadded : Lacks equals_sign body
  pub undotted : Lacks dot body

-- What the documentation of base64, UTF-8 and AES-GCM promises. A ciphertext is accepted only if it
-- is the one of the plaintext that is returned.
pub record IsCrypto (lib : Crypto) : Type 0 where
  pub b64-IsEncoding : (raw : Bytes) → IsEncoding (lib.urlsafe_b64encode raw)
  pub b64decode-b64encode :
      (raw : Bytes) → lib.urlsafe_b64decode (lib.urlsafe_b64encode raw) ≡ some raw
  pub decode-encode : (t : Text) → lib.decode (lib.encode t) ≡ some t
  pub decrypt-encrypt :
      (key nonce plain aad : Bytes)
      → lib.aes_decrypt key nonce (lib.aes_encrypt key nonce plain aad) aad ≡ some plain
  pub encrypt-decrypt :
      (key nonce body aad plain : Bytes)
      → lib.aes_decrypt key nonce body aad ≡ some plain
      → lib.aes_encrypt key nonce plain aad ≡ body

length-replicate : (n c : ℕ) → length (replicate n c) ≡ n
length-replicate zero c = refl
length-replicate (suc n) c = omega (arith, length-replicate n c)

take-append : (xs ys : List ℕ) → take (length xs) (xs ++ ys) ≡ xs
take-append [] ys = refl
take-append (x ∷ xs) ys = ap (◌∷◌ x) (take-append xs ys)

drop-append : (xs ys : List ℕ) → drop (length xs) (xs ++ ys) ≡ ys
drop-append [] ys = refl
drop-append (x ∷ xs) ys = drop-append xs ys

pub split_sealed-seal :
    (ver a b c : Text)
    → Lacks dot ver
    → Lacks dot a
    → Lacks dot b
    → split_sealed (ver ++ dot ∷ (a ++ dot ∷ (b ++ dot ∷ c))) ≡ ok (ver, a, b, c)
unfolding split_sealed
split_sealed-seal ver a b c hv ha hb = ground (
  arith,
  split_once-append dot ver (a ++ dot ∷ (b ++ dot ∷ c)) hv,
  split_once-append dot a (b ++ dot ∷ c) ha,
  split_once-append dot b c hb,
)

module _ (lib : Crypto) (laws : IsCrypto lib) where
  b64e-eq : (raw : Bytes) → b64e lib raw ≡ (laws.b64-IsEncoding raw).body
  unfolding b64e
  b64e-eq raw =
      let e = laws.b64-IsEncoding raw in
      ap (rstrip equals_sign) e.splits ∙ rstrip-append equals_sign e.pads e.body e.unpadded

  b64e-Lacks : (raw : Bytes) → Lacks dot (b64e lib raw)
  b64e-Lacks raw = rw (b64e-eq raw) (laws.b64-IsEncoding raw).undotted

  pub b64d-b64e : (raw : Bytes) → b64d lib (b64e lib raw) ≡ some raw
  unfolding b64d
  b64d-b64e raw =
      let e = laws.b64-IsEncoding raw in
      let pads : (4 - length (b64e lib raw) % 4) % 4 ≡ e.pads =
        omega (arith, ap length (b64e-eq raw), e.few, e.whole) in
      ap lib.urlsafe_b64decode (
        ap (λ n. b64e lib raw ++ replicate n equals_sign) pads
        ∙ ap (λ s. s ++ replicate e.pads equals_sign) (b64e-eq raw)
        ∙ sym e.splits)
      ∙ laws.b64decode-b64encode raw

  seal_text-split :
      (v : Vault) (d : Draws) (p : Text) (ctx : FieldContext)
      → split_sealed (seal_text lib v d p ctx)
        ≡ ok (
          version,
          b64e lib (
              d.salt
              ++ lib.aes_encrypt
                  (kek lib v d.salt)
                  (take nonce_bytes d.salt)
                  d.dek
                  (dek_label lib)),
          b64e lib d.nonce,
          b64e lib (lib.aes_encrypt d.dek d.nonce (lib.encode p) (aad lib ctx)),
        )
  unfolding seal_text
  seal_text-split v d p ctx =
      split_sealed-seal version _ _ _ (omega arith) (b64e-Lacks _) (b64e-Lacks _)

  open_parts-seal :
      (v : Vault) (d : Draws) (nonce body : Bytes) (ctx : FieldContext)
      → length d.salt ≡ 16
      → open_parts lib v
          (d.salt
            ++ lib.aes_encrypt (kek lib v d.salt) (take nonce_bytes d.salt) d.dek (dek_label lib))
          nonce
          body
          ctx
        ≡ or_error (lib.aes_decrypt d.dek nonce body (aad lib ctx))
  unfolding open_parts
  open_parts-seal v d nonce body ctx h =
      let wrapped =
        lib.aes_encrypt (kek lib v d.salt) (take nonce_bytes d.salt) d.dek (dek_label lib) in
      let front : take 16 (d.salt ++ wrapped) ≡ d.salt =
        ap (λ n. take n (d.salt ++ wrapped)) (sym h) ∙ take-append d.salt wrapped in
      let back : drop 16 (d.salt ++ wrapped) ≡ wrapped =
        ap (λ n. drop n (d.salt ++ wrapped)) (sym h) ∙ drop-append d.salt wrapped in
      rw front (
        rw back (
          rw
            (laws.decrypt-encrypt (kek lib v d.salt) (take nonce_bytes d.salt) d.dek
              (dek_label lib))
            refl))

  -- Opening what was sealed under one context in the same vault comes down to the last decryption.
  pub open_text-seal_text :
      (v : Vault) (d : Draws) (p : Text) (ctx ctx' : FieldContext)
      → length d.salt ≡ 16
      → open_text lib v (seal_text lib v d p ctx) ctx'
        ≡ then_crypt
            (or_error (
              lib.aes_decrypt d.dek d.nonce
                (lib.aes_encrypt d.dek d.nonce (lib.encode p) (aad lib ctx))
                (aad lib ctx')))
            (decoded lib)
  unfolding open_text open_encoded text_eq
  open_text-seal_text v d p ctx ctx' h = rw (seal_text-split v d p ctx) (
      rw
        (b64d-b64e (
          d.salt
          ++ lib.aes_encrypt (kek lib v d.salt) (take nonce_bytes d.salt) d.dek (dek_label lib)))
        (rw (b64d-b64e d.nonce) (
          rw (b64d-b64e (lib.aes_encrypt d.dek d.nonce (lib.encode p) (aad lib ctx))) (
            rw
              (open_parts-seal v d d.nonce
                (lib.aes_encrypt d.dek d.nonce (lib.encode p) (aad lib ctx)) ctx' h)
              refl))))
