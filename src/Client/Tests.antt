-- ===== src/Client/Tests.antt =====
-- The client over plain byte strings, and its theorems at concrete inputs.
use mnapp.Client.Connection.{
  Connection, HashFunctions, address_hash, mnhttpc_connection_init, mnhttpc_connection_new,
  mnhttpc_connection_gc,
}
use mnapp.Client.Headers.{call_all, first_value, mnhttpc_response_header_cb-first}
use mnapp.Client.New.{Client, Libraries, NewArgs, is_incomplete, mnhttpc_new}
use mnapp.Client.Plain.{Pairs, hash, laws}
use mnapp.Client.Release.{
  mnhttpc_request_fini, mnhttpc_request_destroy, request_owned, mnhttpc_request_destroy-release,
}
use mnapp.Client.Request.{Request, mnhttpc_request_init, mnhttpc_request_in_header}
use mnapp.Client.Reuse.{IsAccepted, KeyLaws, mnhttpc_new-reuse}
use mnapp.Client.Transport.{IsConsistent, mnhttpc_connection_gc-IsConsistent}
use mnapp.Http.Ctx.{Ctx, http_ctx_init, Stream}
use mnapp.Shared.Owned.{Owned, counted, block, Releases, ReleaseLaws, each, release_all}
use mnapp.Shared.Plain.{plain, same, equal_to, empty}
use mnapp.Shared.{
  ℕ, ◌+◌, ◌*◌, ◌≡◌, ◌≢◌, ◌↔◌, refl, sym, Bool, true, false, Option, none, some, List, [], ◌∷◌, ◌++◌,
  ◌==◌, if◌then◌else◌, arith, Bytes, codes, length, map,
}
use mnapp.Http.Line.{lower}
use mnapp.Uri.Defs.{
  Uri, Scheme, http, https, mnhttp_uri_init, mnhttp_uri_parse, strchr, starts_with, scheme_of,
  parse_rest, default_port, default_scheme,
}

-- A header field as the parser leaves it, the name and the value ended by a NUL.
abbrev field : Bytes → Bytes → Ctx × Stream
field name value =
    let start = length name + 1 in
    let buffer = name ++ (0 ∷ (value ++ 0 ∷ [])) in
    (
      record http_ctx_init {
        current_header_name = record { start = 0; end = length name };
        current_header_value = record { start = start; end = start + length value };
      },
      record { buffer = buffer; at = 0; eod = length buffer },
    )

abbrev answer : List (Ctx × Stream)
answer = field (codes "ETag") (codes "1") ∷ field (codes "etag") (codes "2") ∷ []

abbrev to_lower : Bytes → Bytes
to_lower = map lower

first_etag : first_value plain to_lower (codes "etag") answer ≡ some (codes "1")
unfolding first_value mnapp.Http.Message.cstr equal_to same mnapp.Shared.Plain.led_by
first_etag = refl

mnhttpc_response_header_cb-first_example :
    mnhttpc_request_in_header hash
      (call_all plain hash laws to_lower answer (mnhttpc_request_init hash {W = ℕ} {F = ℕ} {D = ℕ}))
      (codes "etag")
    ≡ first_value plain to_lower (codes "etag") answer
mnhttpc_response_header_cb-first_example =
    mnhttpc_response_header_cb-first ℕ ℕ ℕ plain hash laws to_lower (codes "etag") answer

-- Numbers for strings, and a list for the hash of connections.
sum : Bytes → ℕ
sum [] = 7
sum (c ∷ s) = sum s * 31 + c

abbrev fns : HashFunctions Bytes
fns = record { bytes_hash = sum; fasthash = λ h n. h * 37 + n }

find : ℕ → List (ℕ × ℕ) → Option ℕ
find h [] = none
find h ((k, i) ∷ r) = if k == h then some i else find h r

abbrev lib : Libraries Bytes Pairs (List (ℕ × ℕ)) Bytes
lib = record {
  strings = plain;
  hash = hash;
  keys = record { hash_init = []; hash_get_item = find; hash_set_item = λ h i r. (h, i) ∷ r };
  fns = fns;
  fresh = [];
}

sum-same : (a b : Bytes) → a ≡ b → sum a ≡ sum b
sum-same a b e = rw (e) refl

find_self : (h i : ℕ) (r : List (ℕ × ℕ)) → find h ((h, i) ∷ r) ≡ some i
unfolding find
find_self h i r = ground arith

abbrev key_laws : KeyLaws lib
key_laws = record { bytes_hash-same = sum-same; get-set_self = find_self }

abbrev args : Bytes → NewArgs Bytes Bytes ℕ ℕ
args uri = record {
  proxy_host = none;
  proxy_port = none;
  uri = uri;
  method = codes "GET";
  out_body_cb = none;
  out_body_cb_udata = none;
  in_body_cb = none;
}

abbrev uri_of : Scheme → Bytes → Uri Bytes Pairs
uri_of scheme path = record (mnhttp_uri_init []) {
  scheme = scheme;
  host = some (codes "h");
  port = some (codes "443");
  relative = some path;
  path = some path;
}

plain-IsAccepted :
    IsAccepted plain
      (hash.hash_init)
      (codes "http://h:443/a")
      (uri_of http (codes "/a"))
      (codes "h")
      (codes "443")
unfolding mnhttp_uri_parse strchr starts_with scheme_of parse_rest default_port default_scheme
    is_incomplete empty equal_to
plain-IsAccepted = record { parsed = refl; complete = refl; host_is = refl; port_is = refl }

tls-IsAccepted :
    IsAccepted plain
      (hash.hash_init)
      (codes "https://h/b")
      (uri_of https (codes "/b"))
      (codes "h")
      (codes "443")
unfolding mnhttp_uri_parse strchr starts_with scheme_of parse_rest default_port default_scheme
    is_incomplete empty equal_to
tls-IsAccepted = record { parsed = refl; complete = refl; host_is = refl; port_is = refl }

abbrev client : Client Bytes ℕ Bytes ℕ (List (ℕ × ℕ))
client = record { connections = []; memory = [] }

nothing_found : find (address_hash fns none none (some (codes "h")) (some (codes "443"))) [] ≡ none
unfolding find
nothing_found = refl

-- The request for https gets the connection that was made without TLS.
mnhttpc_new-reuse_example :
    (i : ℕ) × (cli' : Client Bytes ℕ Bytes ℕ (List (ℕ × ℕ))) × (req1 : Request Bytes Pairs Bytes ℕ
      ℕ)
    × (req2 : Request Bytes Pairs Bytes ℕ ℕ) × (mnhttpc_new lib
          (args (codes "http://h:443/a"))
          client
        ≡ some (some req1, cli'))
    × (mnhttpc_new lib (args (codes "https://h/b")) cli' ≡ some (some req2, cli'))
    × (req1.connection ≡ some i)
    × (req2.connection ≡ some i)
mnhttpc_new-reuse_example =
    mnhttpc_new-reuse lib key_laws (args (codes "http://h:443/a")) (args (codes "https://h/b"))
      client (uri_of http (codes "/a")) (uri_of https (codes "/b")) (codes "h") (codes "443")
      (codes "h") (codes "443") plain-IsAccepted tls-IsAccepted refl refl refl refl nothing_found

abbrev conn : Connection Bytes ℕ Bytes ℕ
conn = mnhttpc_connection_new plain [] none none (codes "h") (codes "443") https

mnhttpc_connection_gc-IsConsistent_example :
    IsConsistent {B = Bytes} {T = ℕ} {S = Bytes} {R = ℕ} (mnhttpc_connection_init [] https)
    × (IsConsistent (mnhttpc_connection_gc [] true conn).0 ↔ (conn.sslctx ≡ false))
mnhttpc_connection_gc-IsConsistent_example =
    mnhttpc_connection_gc-IsConsistent Bytes ℕ ℕ [] https conn

-- What was released, the last first; the request itself counts as an empty block.
abbrev releases : Releases Bytes Pairs (List (Owned Bytes))
releases = record {
  decref = λ b w. counted b ∷ w;
  free = λ b w. block b ∷ w;
  free_object = λ w. block [] ∷ w;
  hash_fini = λ f h w. ([], each f h w);
}

abbrev release_laws : ReleaseLaws releases
release_laws = record {
  items = λ h. h;
  hash_fini-each = λ f h w. refl;
  items-hash_fini = λ f h w. refl;
}

-- A request with a header, and its response with a body of a type.
abbrev answered : Request Bytes Pairs Bytes ℕ ℕ
answered =
    let new : Request Bytes Pairs Bytes ℕ ℕ = mnhttpc_request_init hash in
    record new {
      request = record new.request {
        uri = uri_of http (codes "/a");
        headers = (codes "Accept", codes "*") ∷ [];
      };
      response = record new.response { content_type = some (codes "text/plain") };
    }

mnhttpc_request_destroy-release_example :
    (request_owned releases release_laws (mnhttpc_request_fini releases answered []).0 ≡ [])
    × ((mnhttpc_request_fini releases
          (mnhttpc_request_fini releases answered []).0
          (mnhttpc_request_fini releases answered []).1).1
        ≡ (mnhttpc_request_fini releases answered []).1)
    × (mnhttpc_request_destroy releases (some answered) [] ≡ (
      none,
      releases.free_object (release_all releases (request_owned releases release_laws answered) []),
    ))
    × (mnhttpc_request_destroy releases {S = Bytes} {F = ℕ} {D = ℕ} none [] ≡ (none, []))
mnhttpc_request_destroy-release_example =
    mnhttpc_request_destroy-release releases release_laws answered []
