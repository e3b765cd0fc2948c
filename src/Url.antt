-- ===== src/Url.antt =====
-- apps/web/src/lib/url-allowlist.ts: which addresses of the Ollama server, which links and which pages
-- are let through. `URL` of the platform is an argument `parse`, which fails on what is no URL; the
-- regular expressions are the matchers that they denote, on code units.
pub mod Opener
pub mod Local
mod Tests
use musaed.Base.{
  ℕ, Text, Bool, true, false, Option, none, some, List, [], ◌∷◌, ◌++◌, ◌&&◌, ◌||◌, not, leb, ◌==◌,
  map, if◌then◌else◌, is_empty, drop,
}
use musaed.Base.Texts.{same_text, starts_with, trim}
use mathlib.Core.List.{reverse}

-- What the program reads of a `URL`.
pub record Url : Type 0 where
  pub protocol : Text
  pub host : Text
  pub hostname : Text
  pub href : Text

abbrev any {ℓ} : {A : Type ℓ} → (A → Bool) → List A → Bool
any p [] = false
any p (x ∷ xs) = p x || any p xs

abbrev ends_with : Text → Text → Bool
ends_with term text = starts_with (reverse term) (reverse text)

-- `localhost`, `127.0.0.1` and `::1`
abbrev loopbacks : List Text
loopbacks =
    (108 ∷ 111 ∷ 99 ∷ 97 ∷ 108 ∷ 104 ∷ 111 ∷ 115 ∷ 116 ∷ [])
    ∷ (49 ∷ 50 ∷ 55 ∷ 46 ∷ 48 ∷ 46 ∷ 48 ∷ 46 ∷ 49 ∷ [])
    ∷ (58 ∷ 58 ∷ 49 ∷ [])
    ∷ []

-- `.local`
abbrev dot_local : Text
dot_local = 46 ∷ 108 ∷ 111 ∷ 99 ∷ 97 ∷ 108 ∷ []

-- `192.168.`
abbrev pub block_192 : Text
block_192 = 49 ∷ 57 ∷ 50 ∷ 46 ∷ 49 ∷ 54 ∷ 56 ∷ 46 ∷ []

-- `10.`
abbrev pub block_10 : Text
block_10 = 49 ∷ 48 ∷ 46 ∷ []

-- `172.`
abbrev pub block_172 : Text
block_172 = 49 ∷ 55 ∷ 50 ∷ 46 ∷ []

-- `(1[6-9]|2[0-9]|3[0-1])\.` at the start of a text.
abbrev pub starts_16_to_31 : Text → Bool
starts_16_to_31 (a ∷ b ∷ c ∷ text) =
    c == 46
    && ((a == 49 && leb 54 b && leb b 57)
        || (a == 50 && leb 48 b && leb b 57)
        || (a == 51 && leb 48 b && leb b 49))
starts_16_to_31 _ = false

unfoldable pub is_private_ip : Text → Bool
is_private_ip hostname =
    starts_with block_192 hostname
    || starts_with block_10 hostname
    || (starts_with block_172 hostname && starts_16_to_31 (drop 4 hostname))

unfoldable pub is_local : Text → Bool
is_local hostname = any (same_text hostname) loopbacks || ends_with dot_local hostname

unfoldable pub is_valid_ollama_url : (Text → Option Url) → Text → Bool
is_valid_ollama_url parse url = elim (parse url) [
  | none ↦ false
  | some u ↦ is_local u.hostname || is_private_ip u.hostname
]

unfoldable pub sanitize_ollama_url : (Text → Option Url) → Text → Text
sanitize_ollama_url parse url = elim (parse url) [
  | none ↦ url
  | some u ↦ u.protocol ++ (47 ∷ 47 ∷ u.host)
]

-- A place of a pattern: the code units that it accepts.
abbrev pub Site : Type 0
Site = List (List ℕ)

abbrev exactly : Text → Site
exactly = map (λ c. c ∷ [])

-- `https://github.com/[Aa]lfrahi/[Mm]usaed`
abbrev pub github : Site
github =
    exactly (
      104 ∷ 116 ∷ 116 ∷ 112 ∷ 115 ∷ 58 ∷ 47 ∷ 47 ∷ 103 ∷ 105 ∷ 116 ∷ 104 ∷ 117 ∷ 98 ∷ 46 ∷ 99 ∷ 111
      ∷ 109 ∷ 47 ∷ [])
    ++ ((65 ∷ 97 ∷ []) ∷ []
        ++ (exactly (108 ∷ 102 ∷ 114 ∷ 97 ∷ 104 ∷ 105 ∷ 47 ∷ [])
            ++ ((77 ∷ 109 ∷ []) ∷ [] ++ (exactly (117 ∷ 115 ∷ 97 ∷ 101 ∷ 100 ∷ [])))))

-- `https://ollama.com`
abbrev pub ollama_com : Site
ollama_com = exactly (
    104 ∷ 116 ∷ 116 ∷ 112 ∷ 115 ∷ 58 ∷ 47 ∷ 47 ∷ 111 ∷ 108 ∷ 108 ∷ 97 ∷ 109 ∷ 97 ∷ 46 ∷ 99 ∷ 111
    ∷ 109 ∷ [])

-- `https://ollama.ai`
abbrev pub ollama_ai : Site
ollama_ai = exactly (
    104 ∷ 116 ∷ 116 ∷ 112 ∷ 115 ∷ 58 ∷ 47 ∷ 47 ∷ 111 ∷ 108 ∷ 108 ∷ 97 ∷ 109 ∷ 97 ∷ 46 ∷ 97 ∷ 105
    ∷ [])

-- `mailto:`
abbrev pub mailto : Site
mailto = exactly (109 ∷ 97 ∷ 105 ∷ 108 ∷ 116 ∷ 111 ∷ 58 ∷ [])

abbrev pub one_of : ℕ → List ℕ → Bool
one_of c [] = false
one_of c (d ∷ ds) = c == d || one_of c ds

-- The text after a pattern.
unfoldable pub rest_after : Site → Text → Option Text
rest_after [] text = some text
rest_after (s ∷ ss) [] = none
rest_after (s ∷ ss) (c ∷ text) = let rest = rest_after ss text in if one_of c s then rest else none

-- `.+`, which takes no end of a line.
abbrev pub is_line : Text → Bool
is_line [] = true
is_line (c ∷ text) = not (one_of c (10 ∷ 13 ∷ 8232 ∷ 8233 ∷ [])) && is_line text

-- `(?:\/.+)?$`
abbrev pub is_path : Option Text → Bool
is_path none = false
is_path (some []) = true
is_path (some (c ∷ [])) = false
is_path (some (c ∷ d ∷ text)) = c == 47 && is_line (d ∷ text)

-- `\/?$`
abbrev pub is_slash : Option Text → Bool
is_slash none = false
is_slash (some []) = true
is_slash (some (c ∷ [])) = c == 47
is_slash (some (c ∷ d ∷ text)) = false

unfoldable pub is_opener_url_allowed : Text → Bool
is_opener_url_allowed url =
    is_path (rest_after github url)
    || is_path (rest_after ollama_com url)
    || is_path (rest_after ollama_ai url)
    || is_slash (rest_after mailto url)

-- `http:`, `https:` and `mailto:`
abbrev allowed_link_protocols : List Text
allowed_link_protocols =
    (104 ∷ 116 ∷ 116 ∷ 112 ∷ 58 ∷ [])
    ∷ (104 ∷ 116 ∷ 116 ∷ 112 ∷ 115 ∷ 58 ∷ [])
    ∷ (109 ∷ 97 ∷ 105 ∷ 108 ∷ 116 ∷ 111 ∷ 58 ∷ [])
    ∷ []

-- `resolveAllowedHref`; `parse` resolves an address against that of the page.
unfoldable pub resolve_allowed_href : (Text → Option Url) → Option Text → Option Text
resolve_allowed_href parse none = none
resolve_allowed_href parse (some href) = if is_empty (trim href) then none else elim (parse href) [
  | none ↦ none
  | some u ↦ if any (same_text u.protocol) allowed_link_protocols then some u.href else none
]
