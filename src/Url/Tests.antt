-- ===== src/Url/Tests.antt =====
-- The laws of url-allowlist.ts on a page and on a server.
use musaed.Base.{Text, true, false, some, Option, [], ◌∷◌, ◌≡◌, ◌↔◌, refl}
use musaed.Url.{
  Url, is_valid_ollama_url, is_opener_url_allowed, rest_after, is_local, is_private_ip,
}
use musaed.Base.Texts.{starts_with}
use musaed.Url.Opener.{Listed, is_opener_url_allowed-Listed}
use musaed.Url.Local.{LocalUrl, is_valid_ollama_url-LocalUrl}

-- `https://ollama.com/x`
abbrev page : Text
page =
    104 ∷ 116 ∷ 116 ∷ 112 ∷ 115 ∷ 58 ∷ 47 ∷ 47 ∷ 111 ∷ 108 ∷ 108 ∷ 97 ∷ 109 ∷ 97 ∷ 46 ∷ 99 ∷ 111
    ∷ 109 ∷ 47 ∷ 120 ∷ []

page_allowed : is_opener_url_allowed page ≡ true
unfolding is_opener_url_allowed rest_after
page_allowed = refl

-- `https://ollama.com.x`
other_domain_refused :
    is_opener_url_allowed (
      104 ∷ 116 ∷ 116 ∷ 112 ∷ 115 ∷ 58 ∷ 47 ∷ 47 ∷ 111 ∷ 108 ∷ 108 ∷ 97 ∷ 109 ∷ 97 ∷ 46 ∷ 99 ∷ 111
      ∷ 109 ∷ 46 ∷ 120 ∷ [])
    ≡ false
unfolding is_opener_url_allowed rest_after
other_domain_refused = refl

is_opener_url_allowed-Listed_example : (is_opener_url_allowed page ≡ true) ↔ Listed page
is_opener_url_allowed-Listed_example = is_opener_url_allowed-Listed page

-- A parser that knows one server, `10.a.com`.
abbrev server : Url
server = record {
  protocol = 104 ∷ 116 ∷ 116 ∷ 112 ∷ 58 ∷ [];
  host = 49 ∷ 48 ∷ 46 ∷ 97 ∷ 46 ∷ 99 ∷ 111 ∷ 109 ∷ [];
  hostname = 49 ∷ 48 ∷ 46 ∷ 97 ∷ 46 ∷ 99 ∷ 111 ∷ 109 ∷ [];
  href = 104 ∷ 116 ∷ 116 ∷ 112 ∷ 58 ∷ 47 ∷ 47 ∷ 49 ∷ 48 ∷ 46 ∷ 97 ∷ 46 ∷ 99 ∷ 111 ∷ 109 ∷ 47 ∷ [];
}

abbrev parse : Text → Option Url
parse url = some server

server_allowed : is_valid_ollama_url parse [] ≡ true
unfolding is_valid_ollama_url is_local is_private_ip starts_with
server_allowed = refl

is_valid_ollama_url-LocalUrl_example : (is_valid_ollama_url parse [] ≡ true) ↔ LocalUrl parse []
is_valid_ollama_url-LocalUrl_example = is_valid_ollama_url-LocalUrl parse []
