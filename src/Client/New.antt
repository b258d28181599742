-- ===== src/Client/New.antt =====
-- src/mnhttpc.c: `mnhttpc_init`, `mnhttpc_new`. src/mnhttpc.h: `mnhttpc_t`.
use mnapp.Client.Connection.{
  Connection, HashFunctions, address_hash, mnhttpc_connection_new, mnhttpc_connection_hash,
}
use mnapp.Client.Request.{Hash, Request, mnhttpc_request_init}
use mnapp.Shared.MnBytes.{MnBytes}
use mnapp.Shared.{
  ℕ, Bool, false, ◌&&◌, ◌||◌, Option, none, some, List, [], ◌∷◌, ◌++◌, if◌then◌else◌, ◌>>=◌, Bytes,
  length, get_elem?,
}
use mnapp.Uri.Defs.{Uri, mnhttp_uri_init, mnhttp_uri_parse}

-- A hash of mncommon with connections as keys. Their hash is all that `mnhttpc_connection_cmp` looks
-- at, so a key is that number, with the place of the connection in memory.
pub record ConnectionHash (K : Type 0) : Type 0 where
  pub hash_init : K
  pub hash_get_item : ℕ → K → Option ℕ
  pub hash_set_item : ℕ → ℕ → K → K

-- `mnhttpc_t`, with the memory of its connections.
pub record Client (B T S R K : Type 0) : Type 0 where
  pub connections : K
  pub memory : List (Connection B T S R)

-- The libraries: strings, hashes, hash functions, and a new stream.
pub record Libraries (B H K S : Type 0) : Type 0 where
  pub strings : MnBytes B
  pub hash : Hash B H
  pub keys : ConnectionHash K
  pub fns : HashFunctions B
  pub fresh : S

-- The arguments of `mnhttpc_new` but the client.
pub record NewArgs (B W F D : Type 0) : Type 0 where
  pub proxy_host : Option B
  pub proxy_port : Option B
  pub uri : B
  pub method : Bytes
  pub out_body_cb : Option (W → Option D → W)
  pub out_body_cb_udata : Option D
  pub in_body_cb : Option F

-- What `mnhttpc_new` leaves: the request, or NULL, and the client.
abbrev pub Made :
    Type 0 → Type 0 → Type 0 → Type 0 → Type 0 → Type 0 → Type 0 → Type 0 → Type 0 → Type 0
Made B H T S R K W F D = Option (Request B H W F D) × Client B T S R K

module _ {B H K T S R : Type 0} (lib : Libraries B H K S) where
  open lib use {strings, hash, keys, fns, fresh}

  unfoldable pub mnhttpc_init : Client B T S R K
  mnhttpc_init = record { connections = keys.hash_init; memory = [] }

  -- The connection at `host` and `port`: its place, and the client with it.
  unfoldable pub find_connection :
      Client B T S R K → Option B → Option B → Uri B H → B → B → ℕ × Client B T S R K
  unfolding mnhttpc_connection_new mnhttpc_connection_hash
  find_connection cli proxy_host proxy_port uri host port =
      let h = address_hash fns proxy_host proxy_port (some host) (some port) in
      let made = mnhttpc_connection_new strings fresh proxy_host proxy_port host port uri.scheme in
      let (key, conn) = mnhttpc_connection_hash fns made in
      let place = length cli.memory in
      elim (keys.hash_get_item h cli.connections) [
        | some found ↦ (found, cli)
        | none ↦ (
          place,
          record {
            connections = keys.hash_set_item key place cli.connections;
            memory = cli.memory ++ conn ∷ [];
          },
        )
      ]

  -- The two assertions on the connection found.
  unfoldable pub is_same_peer : Option (Connection B T S R) → B → B → Bool
  is_same_peer none host port = false
  is_same_peer (some conn) host port =
      strings.cmp_eq conn.host host && strings.cmp_eq conn.port port

-- The request with the arguments and the URI.
unfoldable pub fill_request :
    {B H W F D : Type 0} → Hash B H → NewArgs B W F D → Uri B H → Request B H W F D
unfolding mnhttpc_request_init
fill_request hash args uri =
    let req : Request _ _ _ _ _ = mnhttpc_request_init hash in
    record req {
      request = record req.request { method = some args.method; uri = uri };
      out_body_cb = args.out_body_cb;
      out_body_cb_udata = args.out_body_cb_udata;
      in_body_cb = args.in_body_cb;
    }

unfoldable pub is_incomplete : {B H : Type 0} → MnBytes B → Uri B H → Bool
is_incomplete strings uri =
    let null = strings.is_null_or_empty in
    null uri.host || null uri.port || null uri.relative || null uri.path

module _ {B H K T S R W F D : Type 0} (lib : Libraries B H K S) where
  open lib use {strings, hash}

  -- The end of `mnhttpc_new`, with the host and the port. `none` means that an assertion failed.
  unfoldable pub with_connection :
      NewArgs B W F D
      → Request B H W F D
      → Uri B H
      → Option B
      → Option B
      → Client B T S R K
      → Option (Made B H T S R K W F D)
  unfolding find_connection is_same_peer
  with_connection args req uri (some host) (some port) cli =
      let (place, cli') = find_connection lib cli args.proxy_host args.proxy_port uri host port in
      if is_same_peer lib (get_elem? cli'.memory place) host port
      then some (some (record req { connection = some place }), cli')
      else none
  with_connection args req uri _ _ cli = none

  unfoldable pub mnhttpc_new : NewArgs B W F D → Client B T S R K → Option (Made B H T S R K W F D)
  unfolding with_connection fill_request is_incomplete
  mnhttpc_new args cli = do
    uri ← mnhttp_uri_parse strings (mnhttp_uri_init hash.hash_init) (strings.cdata args.uri)
    if is_incomplete strings uri
        then some (none, cli)
        else with_connection args (fill_request hash args uri) uri uri.host uri.port cli
