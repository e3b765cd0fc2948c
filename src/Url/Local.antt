-- ===== src/Url/Local.antt =====
-- Which addresses url-allowlist.ts takes for local ones.
use musaed.Base.{
  ℕ, Text, true, Option, some, [], ◌∷◌, ◌++◌, ◌+◌, ◌-◌, ◌*◌, ◌≤◌, ◌≡◌, ◌↔◌, arith, ◌⊎◌, inl, inr,
  ap, sym, subst, refl, ◌∙◌, Bool-cases, Option-cases, drop,
}
use mathlib.Core.List.{reverse, reverse-append, reverse-reverse}
use musaed.Base.Texts.{starts_with, same_text}
use musaed.Base.Texts.Laws.{starts_with_self, starts_with_rest}
use musaed.Url.{
  Url, block_192, block_10, block_172, starts_16_to_31, is_local, is_private_ip,
  is_valid_ollama_url,
}

-- The names that count as private: `10.`, `192.168.`, or `172.` and a number from 16 to 31 in two
-- digits and a dot, and then anything.
pub data PrivateName : Text → Type 0 where
  ten : (rest : Text) → PrivateName (49 ∷ 48 ∷ 46 ∷ rest)
  one_ninety_two : (rest : Text) → PrivateName (49 ∷ 57 ∷ 50 ∷ 46 ∷ 49 ∷ 54 ∷ 56 ∷ 46 ∷ rest)
  one_seventy_two :
      (tens ones : ℕ) (rest : Text)
      → ones ≤ 9
      → 16 ≤ 10 * tens + ones
      → 10 * tens + ones ≤ 31
      → PrivateName (49 ∷ 55 ∷ 50 ∷ 46 ∷ (48 + tens) ∷ (48 + ones) ∷ 46 ∷ rest)

seventy_two : (text : Text) → starts_16_to_31 text ≡ true → PrivateName (49 ∷ 55 ∷ 50 ∷ 46 ∷ text)
seventy_two [] h = cc
seventy_two (a ∷ []) h = cc
seventy_two (a ∷ b ∷ []) h = cc
seventy_two (a ∷ b ∷ c ∷ rest) h =
    let dot : c ≡ 46 = ground (arith, h) in
    let tens : a ≡ 48 + (a - 48) = ground (arith, h) in
    let ones : b ≡ 48 + (b - 48) = ground (arith, h) in
    subst (λ x. PrivateName (49 ∷ 55 ∷ 50 ∷ 46 ∷ x))
      (sym (
        ap (λ x. x ∷ b ∷ c ∷ rest) tens
        ∙ ap (λ x. (48 + (a - 48)) ∷ x ∷ c ∷ rest) ones
        ∙ ap (λ x. (48 + (a - 48)) ∷ (48 + (b - 48)) ∷ x ∷ rest) dot))
      (one_seventy_two (a - 48) (b - 48) rest (ground (arith, h)) (ground (arith, h))
        (ground (arith, h)))

private_name : (hostname : Text) → is_private_ip hostname ≡ true → PrivateName hostname
unfolding is_private_ip
private_name hostname h = elim (Bool-cases (starts_with block_192 hostname)) [
  | inl e ↦
      let (rest, at) = starts_with_rest block_192 hostname e in
      subst PrivateName (sym at) (one_ninety_two rest)
  | inr e ↦ elim (Bool-cases (starts_with block_10 hostname)) [
    | inl f ↦
        let (rest, at) = starts_with_rest block_10 hostname f in
        subst PrivateName (sym at) (ten rest)
    | inr f ↦
        let (rest, at) = starts_with_rest block_172 hostname (ground (arith, h, e, f)) in
        let tail : starts_16_to_31 (drop 4 hostname) ≡ true = ground (arith, h, e, f) in
        subst PrivateName (sym at)
          (seventy_two rest (subst (λ t. starts_16_to_31 (drop 4 t) ≡ true) at tail))
  ]
]

PrivateName-is_private_ip : (hostname : Text) → PrivateName hostname → is_private_ip hostname ≡ true
unfolding is_private_ip starts_with
PrivateName-is_private_ip hostname (ten rest) = refl
PrivateName-is_private_ip hostname (one_ninety_two rest) = refl
PrivateName-is_private_ip hostname (one_seventy_two tens ones rest small low high) = ground arith

same_text-eq : (a b : Text) → same_text a b ≡ true → a ≡ b
same_text-eq [] [] h = refl
same_text-eq [] (d ∷ b) h = cc
same_text-eq (c ∷ a) [] h = cc
same_text-eq (c ∷ a) (d ∷ b) h = ground (arith, same_text-eq a b, h)

-- The names that count as local: three names of the machine itself, and those that end in `.local`.
pub data LocalName : Text → Type 0 where
  -- `localhost`
  localhost : LocalName (108 ∷ 111 ∷ 99 ∷ 97 ∷ 108 ∷ 104 ∷ 111 ∷ 115 ∷ 116 ∷ [])
  -- `127.0.0.1`
  ipv4 : LocalName (49 ∷ 50 ∷ 55 ∷ 46 ∷ 48 ∷ 46 ∷ 48 ∷ 46 ∷ 49 ∷ [])
  -- `::1`
  ipv6 : LocalName (58 ∷ 58 ∷ 49 ∷ [])
  domain : (name : Text) → LocalName (name ++ 46 ∷ 108 ∷ 111 ∷ 99 ∷ 97 ∷ 108 ∷ [])

domain_name :
    (hostname : Text)
    → starts_with (reverse (46 ∷ 108 ∷ 111 ∷ 99 ∷ 97 ∷ 108 ∷ [])) (reverse hostname) ≡ true
    → LocalName hostname
domain_name hostname h =
    let suffix : Text = 46 ∷ 108 ∷ 111 ∷ 99 ∷ 97 ∷ 108 ∷ [] in
    let (rest, at) = starts_with_rest (reverse suffix) (reverse hostname) h in
    subst LocalName
      (sym (
        sym (reverse-reverse hostname)
        ∙ ap reverse at
        ∙ reverse-append (reverse suffix) rest
        ∙ ap (λ x. reverse rest ++ x) (reverse-reverse suffix)))
      (domain (reverse rest))

local_name : (hostname : Text) → is_local hostname ≡ true → LocalName hostname
unfolding is_local
local_name hostname h =
    elim (Bool-cases
      (same_text hostname (108 ∷ 111 ∷ 99 ∷ 97 ∷ 108 ∷ 104 ∷ 111 ∷ 115 ∷ 116 ∷ []))) [
        | inl e ↦ subst LocalName (sym (same_text-eq hostname _ e)) localhost
        | inr e ↦
            elim (Bool-cases
              (same_text hostname (49 ∷ 50 ∷ 55 ∷ 46 ∷ 48 ∷ 46 ∷ 48 ∷ 46 ∷ 49 ∷ []))) [
                | inl f ↦ subst LocalName (sym (same_text-eq hostname _ f)) ipv4
                | inr f ↦ elim (Bool-cases (same_text hostname (58 ∷ 58 ∷ 49 ∷ []))) [
                  | inl g ↦ subst LocalName (sym (same_text-eq hostname _ g)) ipv6
                  | inr g ↦ domain_name hostname (ground (arith, h, e, f, g))
                ]
              ]
      ]

LocalName-is_local : (hostname : Text) → LocalName hostname → is_local hostname ≡ true
unfolding is_local
LocalName-is_local hostname localhost = refl
LocalName-is_local hostname ipv4 = refl
LocalName-is_local hostname ipv6 = refl
LocalName-is_local hostname (domain name) =
    let suffix : Text = 46 ∷ 108 ∷ 111 ∷ 99 ∷ 97 ∷ 108 ∷ [] in
    ground (
      arith,
      ap (starts_with (reverse suffix)) (reverse-append name suffix)
          ∙ starts_with_self (reverse suffix) (reverse name),
    )

-- The address parses, and its host has a name of one of the two kinds.
abbrev pub LocalUrl : (Text → Option Url) → Text → Type 0
LocalUrl parse url =
    (u : Url) × (parse url ≡ some u) × (LocalName u.hostname ⊎ PrivateName u.hostname)

-- An address is let through exactly when it parses and the name of its host is `localhost`,
-- `127.0.0.1` or `::1`, ends in `.local`, or begins with `10.`, with `192.168.`, or with `172.`, a
-- number from 16 to 31 and a dot. What follows such a beginning does not matter, so a name that a
-- foreign domain has registered, as `10.example.com`, is let through.
pub is_valid_ollama_url-LocalUrl :
    (parse : Text → Option Url) (url : Text)
    → (is_valid_ollama_url parse url ≡ true) ↔ LocalUrl parse url
unfolding is_valid_ollama_url
is_valid_ollama_url-LocalUrl parse url = (to, from)
  where
    to : is_valid_ollama_url parse url ≡ true → LocalUrl parse url
    to h = elim (Option-cases (parse url)) [
      | inl e ↦ absurd (ground (arith, h, e))
      | inr (u, e) ↦ elim (Bool-cases (is_local u.hostname)) [
        | inl l ↦ (u, e, inl (local_name u.hostname l))
        | inr l ↦ (u, e, inr (private_name u.hostname (ground (arith, h, e, l))))
      ]
    ]

    from : LocalUrl parse url → is_valid_ollama_url parse url ≡ true
    from (u, e, inl l) = ground (arith, e, LocalName-is_local u.hostname l)
    from (u, e, inr p) = ground (arith, e, PrivateName-is_private_ip u.hostname p)
