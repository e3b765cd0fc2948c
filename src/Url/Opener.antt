-- ===== src/Url/Opener.antt =====
-- Which pages url-allowlist.ts lets the system open.
use musaed.Base.{
  sym, subst, ◌↔◌, Text, true, false, Option, none, some, [], ◌∷◌, ◌++◌, ◌≡◌, ◌⊎◌, inl, inr, refl,
  ap, ◌∙◌, arith, is_empty, Bool-cases, append-nil,
}
use musaed.Url.{
  Site, github, ollama_com, ollama_ai, mailto, one_of, rest_after, is_line, is_path, is_slash,
  is_opener_url_allowed,
}

-- A text that a pattern accepts, place by place.
abbrev pub Fits : Site → Text → Type 0
Fits [] [] = Unit
Fits [] (c ∷ text) = ⊥
Fits (s ∷ ss) [] = ⊥
Fits (s ∷ ss) (c ∷ text) = (one_of c s ≡ true) × Fits ss text

-- The page itself, or a path below it on one line.
pub data Page (site : Site) : Text → Type 0 where
  root : (head : Text) → Fits site head → Page site head
  below :
      (head path : Text)
      → Fits site head
      → is_empty path ≡ false
      → is_line path ≡ true
      → Page site (head ++ 47 ∷ path)

-- The scheme alone, or with a slash.
pub data Bare : Text → Type 0 where
  bare : (head : Text) → Fits mailto head → Bare head
  slashed : (head : Text) → Fits mailto head → Bare (head ++ 47 ∷ [])

rest_after-Fits :
    (site : Site) (url : Text) (rest : Text)
    → rest_after site url ≡ some rest
    → (head : Text) × Fits site head × (url ≡ head ++ rest)
unfolding rest_after
rest_after-Fits [] url rest e = ([], tt, ground (arith, e))
rest_after-Fits (s ∷ ss) [] rest e = cc
rest_after-Fits (s ∷ ss) (c ∷ url) rest e = elim (Bool-cases (one_of c s)) [
  | inl here ↦
      let (head, h, at) = rest_after-Fits ss url rest (ground (arith, e, here)) in
      (c ∷ head, (here, h), ap (◌∷◌ c) at)
  | inr apart ↦ absurd (ground (arith, e, apart))
]

rest_after-append :
    (site : Site) (head rest : Text) → Fits site head → rest_after site (head ++ rest) ≡ some rest
unfolding rest_after
rest_after-append [] [] rest h = refl
rest_after-append [] (c ∷ head) rest h = absurd h
rest_after-append (s ∷ ss) [] rest h = absurd h
rest_after-append (s ∷ ss) (c ∷ head) rest (here, h) = rw here (rest_after-append ss head rest h)

is_path-Page : (site : Site) (url : Text) → is_path (rest_after site url) ≡ true → Page site url
is_path-Page site url h = go (rest_after site url) refl h
  where
    go : (o : Option Text) → rest_after site url ≡ o → is_path o ≡ true → Page site url
    go none e h = cc
    go (some []) e h =
        let (head, fits, at) = rest_after-Fits site url [] e in
        subst (Page site) (sym (at ∙ append-nil head)) (root head fits)
    go (some (c ∷ [])) e h = cc
    go (some (c ∷ d ∷ path)) e h =
        let (head, fits, at) = rest_after-Fits site url (c ∷ d ∷ path) e in
        let slash : c ≡ 47 = ground (arith, h) in
        subst (Page site) (sym (at ∙ ap (λ x. head ++ x ∷ d ∷ path) slash))
          (below head (d ∷ path) fits refl (ground (arith, h)))

Page-is_path : (site : Site) (url : Text) → Page site url → is_path (rest_after site url) ≡ true
Page-is_path site url (root head fits) =
    ap is_path (ap (rest_after site) (sym (append-nil head)) ∙ rest_after-append site head [] fits)
Page-is_path site url (below head [] fits some_path line) = cc
Page-is_path site url (below head (d ∷ path) fits some_path line) =
    ap is_path (rest_after-append site head (47 ∷ d ∷ path) fits) ∙ line

is_slash-Bare : (url : Text) → is_slash (rest_after mailto url) ≡ true → Bare url
is_slash-Bare url h = go (rest_after mailto url) refl h
  where
    go : (o : Option Text) → rest_after mailto url ≡ o → is_slash o ≡ true → Bare url
    go none e h = cc
    go (some []) e h =
        let (head, fits, at) = rest_after-Fits mailto url [] e in
        subst Bare (sym (at ∙ append-nil head)) (bare head fits)
    go (some (c ∷ [])) e h =
        let (head, fits, at) = rest_after-Fits mailto url (c ∷ []) e in
        let slash : c ≡ 47 = ground (arith, h) in
        subst Bare (sym (at ∙ ap (λ x. head ++ x ∷ []) slash)) (slashed head fits)
    go (some (c ∷ d ∷ path)) e h = cc

Bare-is_slash : (url : Text) → Bare url → is_slash (rest_after mailto url) ≡ true
Bare-is_slash url (bare head fits) =
    ap is_slash
      (ap (rest_after mailto) (sym (append-nil head)) ∙ rest_after-append mailto head [] fits)
Bare-is_slash url (slashed head fits) = ap is_slash (rest_after-append mailto head (47 ∷ []) fits)

-- What may be opened.
abbrev pub Listed : Text → Type 0
Listed url = Page github url ⊎ (Page ollama_com url ⊎ (Page ollama_ai url ⊎ Bare url))

-- The pages that may be opened are exactly three and the paths below them, on one line, and a bare
-- `mailto:`. What follows a page's address otherwise, such as another domain, is refused.
pub is_opener_url_allowed-Listed : (url : Text) → (is_opener_url_allowed url ≡ true) ↔ Listed url
unfolding is_opener_url_allowed
is_opener_url_allowed-Listed url = (to, from)
  where
    to : is_opener_url_allowed url ≡ true → Listed url
    to h = elim (Bool-cases (is_path (rest_after github url))) [
      | inl e ↦ inl (is_path-Page github url e)
      | inr e ↦ elim (Bool-cases (is_path (rest_after ollama_com url))) [
        | inl f ↦ inr (inl (is_path-Page ollama_com url f))
        | inr f ↦ elim (Bool-cases (is_path (rest_after ollama_ai url))) [
          | inl g ↦ inr (inr (inl (is_path-Page ollama_ai url g)))
          | inr g ↦ inr (inr (inr (is_slash-Bare url (ground (arith, h, e, f, g)))))
        ]
      ]
    ]

    from : Listed url → is_opener_url_allowed url ≡ true
    from (inl p) = ground (arith, Page-is_path github url p)
    from (inr (inl p)) = ground (arith, Page-is_path ollama_com url p)
    from (inr (inr (inl p))) = ground (arith, Page-is_path ollama_ai url p)
    from (inr (inr (inr b))) = ground (arith, Bare-is_slash url b)
