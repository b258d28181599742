-- ===== src/Uri/Tests.antt =====
-- Runs of the URI parser over plain byte strings, and its theorems at concrete inputs.
use mnapp.Shared.Plain.{plain, empty, equal_to}
use mnapp.Shared.{ℕ, ◌≡◌, refl, Option, none, some, Bytes, codes}
use mnapp.Uri.Defs.{
  Uri, mnhttp_uri_init, https, strchr, starts_with, scheme_of, parse_rest, default_port,
  default_scheme, mnhttp_uri_parse,
}

abbrev parse : Bytes → Option (Uri Bytes ℕ)
parse = mnhttp_uri_parse plain (mnhttp_uri_init 0)

abbrev text : Bytes
text = codes "https://me:pw@host/a?b=c#d"

parse_full :
    parse text
    ≡ some (record (mnhttp_uri_init 0) {
      scheme = https;
      user = some (codes "me");
      password = some (codes "pw");
      host = some (codes "host");
      port = some (codes "443");
      relative = some (codes "/a?b=c#d");
      path = some (codes "/a");
      qstring = some (codes "b=c");
      fragment = some (codes "#d");
    })
unfolding mnhttp_uri_parse strchr starts_with scheme_of parse_rest default_port default_scheme empty
parse_full = refl

-- With no scheme and no port, a NULL port is compared.
parse_bare : parse (codes "host/") ≡ none
unfolding mnhttp_uri_parse strchr starts_with scheme_of parse_rest default_port default_scheme empty
    equal_to
parse_bare = refl
