-- ===== src/Vault.antt =====
-- The envelope encryption of app/security/crypto.py.
--
-- base64, AES-GCM, HKDF, SHA-256, UTF-8 and the lower-casing of a text are the library's and stand in
-- `Crypto`. The random bytes of one `seal` are its argument.
pub mod Laws
pub mod Fields
pub mod Toy
mod Tests
use skyrecon.Base.{
  ℕ, suc, ◌+◌, ◌-◌, ◌%◌, String, Bool, true, false, not, Option, none, some, List, [], ◌∷◌, ◌++◌,
  Text, Bytes, codes, text_eq, split_once, rstrip, replicate, take, drop, length, ltb,
  if◌then◌else◌,
}

pub record Crypto : Type 0 where
  pub urlsafe_b64encode : Bytes → Text
  pub urlsafe_b64decode : Text → Option Bytes
  pub encode : Text → Bytes
  pub decode : Bytes → Option Text
  pub strip_lower : Text → Text
  pub sha256 : Bytes → Bytes
  pub hkdf : Bytes → Bytes → Bytes → Bytes
  pub aes_encrypt : Bytes → Bytes → Bytes → Bytes → Bytes
  pub aes_decrypt : Bytes → Bytes → Bytes → Bytes → Option Bytes

-- A call returns, raises a CryptoError, or lets the UnicodeDecodeError of its last line through.
pub data Crypt (A : Type 0) : Type 0 where
  ok : A → Crypt A
  crypto_error : Crypt A
  unicode_error : Crypt A

abbrev pub version : Text
version = codes "v1"

abbrev pub nonce_bytes : ℕ
nonce_bytes = 12

abbrev pub min_master_bytes : ℕ
min_master_bytes = 32

abbrev pub dot : ℕ
dot = 46

abbrev pub equals_sign : ℕ
equals_sign = 61

abbrev pub bar : ℕ
bar = 124

pub record FieldContext : Type 0 where
  pub table : Text
  pub column : Text
  pub record_id : Text

abbrev pub context_text : FieldContext → Text
context_text ctx = version ++ bar ∷ (ctx.table ++ bar ∷ (ctx.column ++ bar ∷ ctx.record_id))

pub record Vault : Type 0 where
  pub master : Bytes

-- The random bytes that one call of `seal` draws.
pub record Draws : Type 0 where
  pub dek : Bytes
  pub salt : Bytes
  pub nonce : Bytes

-- What `decrypt` gives, or the CryptoError that any exception becomes.
abbrev pub or_error : {A : Type 0} → Option A → Crypt A
or_error none = crypto_error
or_error (some a) = ok a

abbrev pub then_crypt : {A B : Type 0} → Crypt A → (A → Crypt B) → Crypt B
then_crypt (ok a) f = f a
then_crypt crypto_error f = crypto_error
then_crypt unicode_error f = unicode_error

-- The four parts of `sealed.split(".", 3)`; fewer raise.
unfoldable pub split_sealed : Text → Crypt (Text × Text × Text × Text)
split_sealed s = then_crypt (or_error (split_once dot s)) λ (version, s1).
    then_crypt (or_error (split_once dot s1)) λ (wrapped, s2).
      then_crypt (or_error (split_once dot s2)) λ (nonce, body). ok (version, wrapped, nonce, body)

module _ (lib : Crypto) where
  unfoldable pub aad : FieldContext → Bytes
  aad ctx = lib.encode (context_text ctx)

  unfoldable pub b64e : Bytes → Text
  b64e raw = rstrip equals_sign (lib.urlsafe_b64encode raw)

  -- `-len(text) % 4` characters of padding
  unfoldable pub b64d : Text → Option Bytes
  b64d text = lib.urlsafe_b64decode (text ++ replicate ((4 - length text % 4) % 4) equals_sign)

  -- `Vault(master_key)`
  unfoldable pub new_vault : Text → Crypt Vault
  new_vault master_key = elim (b64d master_key) [
    | none ↦ crypto_error
    | some raw ↦
        if ltb (length raw) min_master_bytes then crypto_error else ok (record { master = raw })
  ]

  unfoldable pub kek : Vault → Bytes → Bytes
  kek v salt = lib.hkdf v.master salt (lib.encode (codes "skyrecon/kek/v1"))

  abbrev pub dek_label : Bytes
  dek_label = lib.encode (codes "skyrecon/dek/v1")

  unfoldable pub seal_text : Vault → Draws → Text → FieldContext → Text
  seal_text v d plaintext ctx =
      let wrapped = lib.aes_encrypt (kek v d.salt) (take nonce_bytes d.salt) d.dek dek_label in
      let body = lib.aes_encrypt d.dek d.nonce (lib.encode plaintext) (aad ctx) in
      version ++ dot ∷ (b64e (d.salt ++ wrapped) ++ dot ∷ (b64e d.nonce ++ dot ∷ b64e body))

  unfoldable pub seal : Vault → Draws → Option Text → FieldContext → Option Text
  seal v d none ctx = none
  seal v d (some plaintext) ctx = some (seal_text v d plaintext ctx)

  -- `plain.decode()`
  unfoldable pub decoded : Bytes → Crypt Text
  decoded plain = elim (lib.decode plain) [ none ↦ unicode_error | some t ↦ ok t ]

  -- The two decryptions, from the decoded parts.
  unfoldable pub open_parts : Vault → Bytes → Bytes → Bytes → FieldContext → Crypt Bytes
  open_parts v blob nonce body ctx =
      let salt = take 16 blob in
      then_crypt
        (or_error (lib.aes_decrypt (kek v salt) (take nonce_bytes salt) (drop 16 blob) dek_label))
        λ dek. or_error (lib.aes_decrypt dek nonce body (aad ctx))

  unfoldable pub open_encoded : Vault → Text → Text → Text → FieldContext → Crypt Text
  open_encoded v wrapped_b64 nonce_b64 body_b64 ctx =
      then_crypt (or_error (b64d wrapped_b64)) λ blob.
        then_crypt (or_error (b64d nonce_b64)) λ nonce.
          then_crypt (or_error (b64d body_b64))
            λ body. then_crypt (open_parts v blob nonce body ctx) decoded

  unfoldable pub open_text : Vault → Text → FieldContext → Crypt Text
  open_text v sealed ctx =
      then_crypt (split_sealed sealed) λ (ver, wrapped_b64, nonce_b64, body_b64).
        if text_eq ver version
        then open_encoded v wrapped_b64 nonce_b64 body_b64 ctx
        else crypto_error

  unfoldable pub open_sealed : Vault → Option Text → FieldContext → Crypt (Option Text)
  open_sealed v none ctx = ok none
  open_sealed v (some sealed) ctx = then_crypt (open_text v sealed ctx) λ t. ok (some t)

  unfoldable pub rewrap : Vault → Draws → Text → FieldContext → Text → Crypt (Option Text)
  rewrap v d sealed ctx new_master =
      then_crypt (open_sealed v (some sealed) ctx)
        λ plain. then_crypt (new_vault new_master) λ new. ok (seal new d plain ctx)

  unfoldable pub blind_index : Vault → Text → Text → Text
  blind_index v value domain =
      let mac =
        lib.hkdf v.master (lib.encode domain) (lib.encode (codes "skyrecon/blind-index/v1")) in
      take 43 (b64e (lib.sha256 (mac ++ lib.encode (lib.strip_lower value))))
