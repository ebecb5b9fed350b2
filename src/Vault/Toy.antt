-- ===== src/Vault/Toy.antt =====
-- Functions that meet what is assumed of the cryptographic library, for the examples.
use mathlib.Core.List.{append-nil}
use skyrecon.Base.{
  ℕ, ◌+◌, ◌-◌, ◌*◌, ◌≡◌, refl, sym, arith, Option, none, some, [], ◌∷◌, ◌++◌, Text, Bytes, leb,
  ◌==◌, ==_refl, Lacks, length, if◌then◌else◌,
}
use skyrecon.Vault.{Crypto, Draws}
use skyrecon.Vault.Laws.{IsCrypto}

sum : Bytes → ℕ
sum [] = 0
sum (b ∷ bs) = b + sum bs

-- Four characters to a byte.
spread : Bytes → Text
spread [] = []
spread (b ∷ bs) = (b + 100) ∷ 65 ∷ 65 ∷ 65 ∷ spread bs

shown : ℕ → Option Bytes → Option Bytes
shown a none = none
shown a (some bs) = if leb 100 a then some ((a - 100) ∷ bs) else none

gather : Text → Option Bytes
unfolding shown
gather [] = some []
gather (a ∷ b ∷ c ∷ d ∷ s) = shown a (gather s)
gather _ = none

tag : Bytes → Bytes → Bytes → ℕ
tag key nonce aad = sum key + sum aad

unlock : Bytes → Bytes → Bytes → Bytes → Option Bytes
unlock key nonce [] aad = none
unlock key nonce (t ∷ plain) aad = if t == tag key nonce aad then some plain else none

turned : Bytes → Bytes → Bytes
turned done [] = done
turned done (b ∷ bs) = turned (b ∷ done) bs

unfoldable pub toy : Crypto
unfolding turned sum spread gather tag unlock
toy = record {
  urlsafe_b64encode = spread;
  urlsafe_b64decode = gather;
  encode = λ t. t;
  decode = λ b. some b;
  strip_lower = λ t. t;
  sha256 = turned [];
  hkdf = λ master salt info. master ++ salt;
  aes_encrypt = λ key nonce plain aad. tag key nonce aad ∷ plain;
  aes_decrypt = unlock;
}

gather-spread : (bs : Bytes) → gather (spread bs) ≡ some bs
unfolding gather spread
gather-spread [] = refl
gather-spread (b ∷ bs) = ground (arith, gather-spread bs)

length-spread : (bs : Bytes) → length (spread bs) ≡ 4 * length bs
unfolding spread
length-spread [] = omega arith
length-spread (b ∷ bs) = omega (arith, length-spread bs)

spread-undotted : (bs : Bytes) → Lacks 46 (spread bs)
unfolding spread
spread-undotted [] = tt
spread-undotted (b ∷ bs) =
    (omega arith, (omega arith, (omega arith, (omega arith, spread-undotted bs))))

unlock-tag :
    (key nonce plain aad : Bytes) → unlock key nonce (tag key nonce aad ∷ plain) aad ≡ some plain
unfolding unlock
unlock-tag key nonce plain aad = rw (==_refl (tag key nonce aad)) refl

unlocked :
    (key nonce body aad plain : Bytes)
    → unlock key nonce body aad ≡ some plain
    → tag key nonce aad ∷ plain ≡ body
unfolding unlock
unlocked key nonce [] aad plain h = cc h
unlocked key nonce (t ∷ rest) aad plain h = ground (arith, h)

spread-unpadded : (bs : Bytes) → Lacks 61 (spread bs)
unfolding spread
spread-unpadded [] = tt
spread-unpadded (b ∷ bs) =
    (omega arith, (omega arith, (omega arith, (omega arith, spread-unpadded bs))))

pub toy-IsCrypto : IsCrypto toy
unfolding toy
toy-IsCrypto = record {
  b64-IsEncoding = λ raw. record {
    body = spread raw;
    pads = 0;
    splits = sym (append-nil (spread raw));
    few = omega arith;
    whole = omega (arith, length-spread raw);
    unpadded = spread-unpadded raw;
    undotted = spread-undotted raw;
  };
  b64decode-b64encode = gather-spread;
  decode-encode = λ t. refl;
  decrypt-encrypt = λ key nonce plain aad. unlock-tag key nonce plain aad;
  encrypt-decrypt = λ key nonce body aad plain h. unlocked key nonce body aad plain h;
}

-- Draws that differ from call to call, with a salt of sixteen bytes.
unfoldable pub draws : ℕ → Draws
draws n = record {
  dek = n ∷ 7 ∷ [];
  salt = 1 ∷ 2 ∷ 3 ∷ 4 ∷ 5 ∷ 6 ∷ 7 ∷ 8 ∷ 9 ∷ 10 ∷ 11 ∷ 12 ∷ 13 ∷ 14 ∷ 15 ∷ n ∷ [];
  nonce = n ∷ [];
}

pub draws_salted : (n : ℕ) → length (draws n).salt ≡ 16
unfolding draws
draws_salted n = omega arith
