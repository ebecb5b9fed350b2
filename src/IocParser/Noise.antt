-- ===== src/IocParser/Noise.antt =====
-- What app/ioc/parser.py refuses: private and reserved addresses, and known-good domains.
use skyrecon.Base.{
  ℕ, Lacks, split_once, Option-cases, subst, ◌≡◌, refl, sym, ap, ◌∙◌, arith, ◌⊎◌, inl, inr, Bool,
  true, false, not, ◌&&◌, some, List, [], ◌∷◌, ◌++◌, Text, text_eq, text_eq_iff, Among, Among-All,
  any, true_ne_false,
}
use skyrecon.Rules.Operators.{has_suffix}
use skyrecon.IocParser.{
  IocType, ipv4, ipv6, domain, url, email, md5, sha1, sha256, cve, Address, Library, safe_domains,
  ParsedIoc, dot, at_sign, before, url_scheme, strip_chars, is_routable, is_routable_ip,
  is_safe_host, is_noise_domain, normalize, url_host, accepts, validate,
}
use skyrecon.IocParser.Extract.{extract}
use skyrecon.IocParser.Extraction.{extract-Origin}

-- A known-good domain or one below it.
abbrev pub UnderSafe : Text → Type 0
UnderSafe host =
    (safe : Text) × Among safe safe_domains
    × ((host ≡ safe) ⊎ ((w : Text) × (host ≡ w ++ dot ∷ safe)))

abbrev pub host_of : Library → Text → Text
host_of lib value = strip_chars (dot ∷ []) (lib.lower value)

abbrev pub Reserved : Address → Type 0
Reserved ip =
    (ip.is_private ≡ true)
    ⊎ (ip.is_loopback ≡ true)
    ⊎ (ip.is_link_local ≡ true)
    ⊎ (ip.is_multicast ≡ true)
    ⊎ (ip.is_reserved ≡ true)
    ⊎ (ip.is_unspecified ≡ true)

-- The host of a URL ends with the URL, in front of a slash, or in front of a colon without an at sign behind
-- it.
abbrev pub EndsHost : Text → Type 0
EndsHost [] = Unit
EndsHost (c ∷ s) = (c ≡ b'/') ⊎ ((c ≡ b':') × Lacks at_sign s)

-- What stands behind the scheme is the host and the rest, without user information.
abbrev pub HasHost : Library → Text → Text → Type 0
HasHost lib v host =
    (rest : Text) × (lib.sub url_scheme [] v ≡ host ++ rest)
    × Lacks b':' host
    × Lacks b'/' host
    × Lacks at_sign host
    × EndsHost rest

before-append : (c : ℕ) (h r : Text) → Lacks c h → before c (h ++ r) ≡ h ++ before c r
unfolding before split_once
before-append c [] r l = refl
before-append c (d ∷ h) r l = elim (Option-cases (split_once c (h ++ r))) [
  | inl e ↦ ground (arith, l.0, e, before-append c h r l.1)
  | inr ((x, y), e) ↦ ground (arith, l.0, e, before-append c h r l.1)
]

before-here : (c : ℕ) (s : Text) → before c (c ∷ s) ≡ []
unfolding before split_once
before-here c s = ground arith

append_nil : (s : Text) → s ++ [] ≡ s
append_nil [] = refl
append_nil (c ∷ s) = ap (λ t. c ∷ t) (append_nil s)

-- A text without the separator, alone and in front of it.
before-alone : (c : ℕ) (h : Text) → Lacks c h → before c h ≡ h
unfolding before split_once
before-alone c h l = ap (before c) (sym (append_nil h)) ∙ before-append c h [] l ∙ append_nil h

before-first : (c : ℕ) (h s : Text) → Lacks c h → before c (h ++ c ∷ s) ≡ h
before-first c h s l =
    before-append c h (c ∷ s) l ∙ ap (λ t. h ++ t) (before-here c s) ∙ append_nil h

host_alone :
    (host rest : Text)
    → Lacks b':' host
    → Lacks b'/' host
    → EndsHost rest
    → before b':' (before b'/' (host ++ rest)) ≡ host
host_alone host [] colon slash ends =
    ap (λ t. before b':' (before b'/' t)) (append_nil host)
    ∙ ap (before b':') (before-alone b'/' host slash)
    ∙ before-alone b':' host colon
host_alone host (c ∷ s) colon slash ends = elim ends [
  | inl e ↦
      ap (λ d. before b':' (before b'/' (host ++ d ∷ s))) e
      ∙ ap (before b':') (before-first b'/' host s slash)
      ∙ before-alone b':' host colon
  | inr (e, _) ↦
      ap (λ d. before b':' (before b'/' (host ++ d ∷ s))) e
      ∙ ap (before b':') (
          before-append b'/' host (b':' ∷ s) slash
          ∙ ap (λ t. host ++ t) (before-append b'/' (b':' ∷ []) s (omega arith, tt)))
      ∙ before-first b':' host (before b'/' s) colon
]

url_host-HasHost : (lib : Library) (v host : Text) → HasHost lib v host → url_host lib v ≡ host
unfolding url_host
url_host-HasHost lib v host (rest, is, colon, slash, at, ends) =
    ap (λ t. before b':' (before b'/' t)) is ∙ host_alone host rest colon slash ends

abbrev pub IsNoise : Library → IocType → Text → Type 0
IsNoise lib ipv4 v = (ip : Address) × (lib.ip_address v ≡ some ip) × Reserved ip
IsNoise lib ipv6 v = (ip : Address) × (lib.ip_address v ≡ some ip) × Reserved ip
IsNoise lib domain v = UnderSafe (host_of lib v)
IsNoise lib url v = (host : Text) × HasHost lib v host × UnderSafe (host_of lib host)
IsNoise lib _ v = ⊥

has_suffix_self : (p : Text) → has_suffix p p ≡ true
unfolding has_suffix
has_suffix_self [] = (text_eq_iff [] []).1 refl
has_suffix_self (c ∷ p) = rw ((text_eq_iff (c ∷ p) (c ∷ p)).1 refl) refl

has_suffix-append : (w p : Text) → has_suffix (w ++ p) p ≡ true
unfolding has_suffix
has_suffix-append [] p = has_suffix_self p
has_suffix-append (c ∷ w) p = ground (arith, has_suffix-append w p)

any-Among :
    (f : Text → Bool) (x : Text) (xs : List Text) → Among x xs → f x ≡ true → any f xs ≡ true
any-Among f x [] m h = absurd m
any-Among f x (y ∷ xs) m h = elim m [
  | inl e ↦ rw (sym (ap f e) ∙ h) refl
  | inr n ↦ ground (arith, any-Among f x xs n h)
]

UnderSafe-is_safe_host : (host : Text) → UnderSafe host → is_safe_host host ≡ true
unfolding is_safe_host
UnderSafe-is_safe_host host (safe, m, h) = elim h [
  | inl e ↦
      rw (any-Among (λ s. text_eq host s) safe safe_domains m ((text_eq_iff host safe).1 e)) refl
  | inr (w, e) ↦
      let below : has_suffix host (dot ∷ safe) ≡ true =
        ap (λ s. has_suffix s (dot ∷ safe)) e ∙ has_suffix-append w (dot ∷ safe) in
      let found = any-Among (λ s. has_suffix host (dot ∷ s)) safe safe_domains m below in
      grind (arith, found)
]

is_routable-Reserved : (ip : Address) → Reserved ip → is_routable ip ≡ false
unfolding is_routable
is_routable-Reserved ip h = ground arith

is_routable_ip-Reserved :
    (lib : Library) (v : Text) (ip : Address)
    → lib.ip_address v ≡ some ip
    → Reserved ip
    → is_routable_ip lib v ≡ false
unfolding is_routable_ip
is_routable_ip-Reserved lib v ip e h = rw (is_routable_ip, e) (is_routable-Reserved ip h)

and_false : (a b : Bool) → b ≡ true → (a && not b) ≡ false
and_false a b h = grind arith

accepts-IsNoise :
    (lib : Library) (t : IocType) (v : Text) → IsNoise lib t v → accepts lib t v ≡ false
unfolding accepts is_noise_domain
accepts-IsNoise lib ipv4 v (ip, e, h) = is_routable_ip-Reserved lib v ip e h
accepts-IsNoise lib ipv6 v (ip, e, h) = is_routable_ip-Reserved lib v ip e h
accepts-IsNoise lib domain v h = and_false _ _ (UnderSafe-is_safe_host (host_of lib v) h)
accepts-IsNoise lib url v (host, has, h) = and_false _ _ (
    UnderSafe-is_safe_host (host_of lib (url_host lib v))
      (subst (λ u. UnderSafe (host_of lib u)) (sym (url_host-HasHost lib v host has)) h))
accepts-IsNoise lib email v h = absurd h
accepts-IsNoise lib md5 v h = absurd h
accepts-IsNoise lib sha1 v h = absurd h
accepts-IsNoise lib sha256 v h = absurd h
accepts-IsNoise lib cve v h = absurd h

-- No extraction without noise returns a private, loopback, link-local, multicast, reserved or
-- unspecified address, nor a domain that is a known-good domain or one below it, nor a URL without user
-- information whose host is one and is followed by a slash, a port or nothing.
pub extract-IsNoise :
    (lib : Library) (text : Text) (p : ParsedIoc)
    → Among p (extract lib text false)
    → ¬ IsNoise lib p.ioc_type (normalize lib p.value p.ioc_type)
unfolding validate
extract-IsNoise lib text p a noise =
    let (spans, _, origins) = extract-Origin lib text false in
    let (m, w, e, c, v) = Among-All _ p (extract lib text false) a origins in
    elim v [
      | inl k ↦ true_ne_false (sym k)
      | inr ok ↦
          true_ne_false
            (sym ok ∙ accepts-IsNoise lib p.ioc_type (normalize lib p.value p.ioc_type) noise)
    ]
