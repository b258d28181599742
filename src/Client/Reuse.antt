-- ===== src/Client/Reuse.antt =====
-- Requests to one address share a connection, whatever their schemes are.
use mnapp.Client.Connection.{
  mix, address_hash, copy, mnhttpc_connection_new, mnhttpc_connection_hash,
}
use mnapp.Client.New.{
  Client, Libraries, NewArgs, find_connection, is_same_peer, fill_request, is_incomplete,
  with_connection, mnhttpc_new,
}
use mnapp.Client.Request.{Request}
use mnapp.Shared.MnBytes.{MnBytes}
use mnapp.Shared.{
  ℕ, ◌≡◌, refl, ap, ◌∙◌, true, false, Option, none, some, [], ◌∷◌, ◌++◌, length, get_elem?,
  get_elem?-length,
}
use mnapp.Uri.Defs.{Uri, mnhttp_uri_init, mnhttp_uri_parse}

-- A URI that `mnhttpc_new` accepts, with its host and port.
pub record IsAccepted {B H : Type 0} (strings : MnBytes B) (init : H) (text : B) (uri : Uri B H)
    (host port : B) : Type 0 where
  pub parsed : mnhttp_uri_parse strings (mnhttp_uri_init init) (strings.cdata text) ≡ some uri
  pub complete : is_incomplete strings uri ≡ false
  pub host_is : uri.host ≡ some host
  pub port_is : uri.port ≡ some port

module _ {B H K T S R W F D : Type 0} (lib : Libraries B H K S) where
  open lib use {strings, hash, keys, fns}

  mnhttpc_new-accepted :
      (args : NewArgs B W F D) (cli : Client B T S R K) (uri : Uri B H) (host port : B)
      → IsAccepted strings hash.hash_init args.uri uri host port
      → mnhttpc_new lib args cli
        ≡ with_connection lib args (fill_request hash args uri) uri (some host) (some port) cli
  unfolding mnhttpc_new
  mnhttpc_new-accepted args cli uri host port a =
      rw (a.parsed) (rw (a.complete, a.host_is, a.port_is) refl)

-- What the code relies on: a string is hashed by its bytes, and a hash finds what was set.
pub record KeyLaws {B H K S : Type 0} (lib : Libraries B H K S) : Type 0 where
  pub bytes_hash-same :
      (a b : B)
      → lib.strings.cdata a ≡ lib.strings.cdata b
      → lib.fns.bytes_hash a ≡ lib.fns.bytes_hash b
  pub get-set_self :
      (h i : ℕ) (k : K) → lib.keys.hash_get_item h (lib.keys.hash_set_item h i k) ≡ some i

module _ {B H K S : Type 0} (lib : Libraries B H K S) (laws : KeyLaws lib) where
  open lib use {strings, keys, fns}
  open strings use {cdata, from_bytes, cdata-from_bytes, cmp_eq, cmp_eq_iff}
  open laws use {bytes_hash-same, get-set_self}

  mix-copy : (n : ℕ) (o : Option B) → mix fns n (copy strings o) ≡ mix fns n o
  unfolding mix copy
  mix-copy n none = refl
  mix-copy n (some b) = ap (fns.fasthash n) (bytes_hash-same _ b (cdata-from_bytes b))

  mix-same : (n : ℕ) (a b : B) → cdata a ≡ cdata b → mix fns n (some a) ≡ mix fns n (some b)
  unfolding mix
  mix-same n a b h = ap (fns.fasthash n) (bytes_hash-same a b h)

  address_hash-copy :
      (proxy_host proxy_port : Option B) (host port : B)
      → address_hash fns
          (copy strings proxy_host)
          (copy strings proxy_port)
          (some (from_bytes host))
          (some (from_bytes port))
        ≡ address_hash fns proxy_host proxy_port (some host) (some port)
  unfolding address_hash copy
  address_hash-copy none pp host port =
      rw
        (
          mix-copy 0 pp,
          mix-same _ _ host (cdata-from_bytes host),
          mix-same _ _ port (cdata-from_bytes port),
        )
        refl
  address_hash-copy (some ph) pp host port =
      rw
        (
          bytes_hash-same _ ph (cdata-from_bytes ph),
          mix-copy (fns.bytes_hash ph) pp,
          mix-same _ _ host (cdata-from_bytes host),
          mix-same _ _ port (cdata-from_bytes port),
        )
        refl

  address_hash-same :
      (proxy_host proxy_port : Option B) (h1 p1 h2 p2 : B)
      → cdata h1 ≡ cdata h2
      → cdata p1 ≡ cdata p2
      → address_hash fns proxy_host proxy_port (some h1) (some p1)
        ≡ address_hash fns proxy_host proxy_port (some h2) (some p2)
  unfolding address_hash
  address_hash-same ph pp h1 p1 h2 p2 h p = rw (mix-same _ h1 h2 h, mix-same _ p1 p2 p) refl

  cmp_eq-from_bytes : (b c : B) → cdata b ≡ cdata c → cmp_eq (some (from_bytes b)) c ≡ true
  cmp_eq-from_bytes b c h = (cmp_eq_iff (from_bytes b) c).1 (cdata-from_bytes b ∙ h)

module _ {B H K T S R : Type 0} (lib : Libraries B H K S) (laws : KeyLaws lib) where
  open lib use {strings, hash, keys, fns, fresh}
  open laws use {get-set_self}

  -- The client with a connection made for the address.
  with_new : Client B T S R K → Option B → Option B → Uri B H → B → B → Client B T S R K
  with_new cli proxy_host proxy_port uri host port =
      let key = address_hash fns proxy_host proxy_port (some host) (some port) in
      let conn = mnhttpc_connection_new strings fresh proxy_host proxy_port host port uri.scheme in
      record {
        connections = keys.hash_set_item key (length cli.memory) cli.connections;
        memory = cli.memory ++ (record conn { hash = key }) ∷ [];
      }

  find_connection-new :
      (cli : Client B T S R K) (proxy_host proxy_port : Option B) (uri : Uri B H) (host port : B)
      → keys.hash_get_item
          (address_hash fns proxy_host proxy_port (some host) (some port))
          cli.connections
        ≡ none
      → find_connection lib cli proxy_host proxy_port uri host port
        ≡ (length cli.memory, with_new cli proxy_host proxy_port uri host port)
  unfolding find_connection with_new mnhttpc_connection_new mnhttpc_connection_hash
  find_connection-new cli ph pp uri host port missing =
      rw (missing, find_connection) (rw (address_hash-copy lib laws ph pp host port) refl)

  find_connection-found :
      (cli : Client B T S R K) (proxy_host proxy_port : Option B) (uri : Uri B H) (host port : B)
      (i : ℕ)
      → keys.hash_get_item
          (address_hash fns proxy_host proxy_port (some host) (some port))
          cli.connections
        ≡ some i
      → find_connection lib cli proxy_host proxy_port uri host port ≡ (i, cli)
  unfolding find_connection
  find_connection-found cli ph pp uri host port i found = rw (found, find_connection) refl

  -- The connection made is the peer of every address with the same bytes.
  with_new-is_same_peer :
      (cli : Client B T S R K) (proxy_host proxy_port : Option B) (uri : Uri B H)
      (host port h p : B)
      → strings.cdata host ≡ strings.cdata h
      → strings.cdata port ≡ strings.cdata p
      → is_same_peer lib
          (get_elem? (with_new cli proxy_host proxy_port uri host port).memory (length cli.memory))
          h
          p
        ≡ true
  unfolding with_new is_same_peer mnhttpc_connection_new
  with_new-is_same_peer cli ph pp uri host port h p e1 e2 =
      rw
        (
          get_elem?-length cli.memory _,
          cmp_eq-from_bytes lib laws host h e1,
          cmp_eq-from_bytes lib laws port p e2,
        )
        refl

  with_new-get :
      (cli : Client B T S R K) (proxy_host proxy_port ph pp : Option B) (uri : Uri B H)
      (host port h p : B)
      → ph ≡ proxy_host
      → pp ≡ proxy_port
      → strings.cdata host ≡ strings.cdata h
      → strings.cdata port ≡ strings.cdata p
      → keys.hash_get_item
          (address_hash fns ph pp (some h) (some p))
          (with_new cli proxy_host proxy_port uri host port).connections
        ≡ some (length cli.memory)
  unfolding with_new
  with_new-get cli proxy_host proxy_port ph pp uri host port h p eph epp eh ep =
      rw (eph, epp, ← address_hash-same lib laws proxy_host proxy_port host port h p eh ep)
        (get-set_self _ (length cli.memory) cli.connections)

module _ {B H K T S R W F D : Type 0} (lib : Libraries B H K S) (laws : KeyLaws lib) where
  open lib use {strings, hash, keys, fns}

  with_connection-at :
      (args : NewArgs B W F D) (req : Request B H W F D) (uri : Uri B H) (host port : B)
      (cli cli' : Client B T S R K) (i : ℕ)
      → find_connection lib cli args.proxy_host args.proxy_port uri host port ≡ (i, cli')
      → is_same_peer lib (get_elem? cli'.memory i) host port ≡ true
      → with_connection lib args req uri (some host) (some port) cli
        ≡ some (some (record req { connection = some i }), cli')
  unfolding with_connection
  with_connection-at args req uri host port cli cli' i found same = rw (found) (rw (same) refl)

  -- Two requests to one address, by one proxy or none, get one connection: the first makes it and the
  -- second leaves the client as it is, whatever the schemes of the two URIs are.
  pub mnhttpc_new-reuse :
      (first second : NewArgs B W F D) (cli : Client B T S R K) (uri1 uri2 : Uri B H)
      (host1 port1 host2 port2 : B)
      → IsAccepted strings hash.hash_init first.uri uri1 host1 port1
      → IsAccepted strings hash.hash_init second.uri uri2 host2 port2
      → strings.cdata host1 ≡ strings.cdata host2
      → strings.cdata port1 ≡ strings.cdata port2
      → second.proxy_host ≡ first.proxy_host
      → second.proxy_port ≡ first.proxy_port
      → keys.hash_get_item
          (address_hash fns first.proxy_host first.proxy_port (some host1) (some port1))
          cli.connections
        ≡ none
      → (i : ℕ) × (cli' : Client B T S R K) × (req1 : Request B H W F D) × (req2 : Request B H W F
          D)
        × (mnhttpc_new lib first cli ≡ some (some req1, cli'))
        × (mnhttpc_new lib second cli' ≡ some (some req2, cli'))
        × (req1.connection ≡ some i)
        × (req2.connection ≡ some i)
  mnhttpc_new-reuse first second cli uri1 uri2 h1 p1 h2 p2 a1 a2 eh ep eph epp missing =
      let i = length cli.memory in
      let ph = first.proxy_host in
      let pp = first.proxy_port in
      let cli' = with_new lib laws cli ph pp uri1 h1 p1 in
      let one = fill_request hash first uri1 in
      let two = fill_request hash second uri2 in
      let made = find_connection-new lib laws cli ph pp uri1 h1 p1 missing in
      let found =
        find_connection-found lib laws cli' second.proxy_host second.proxy_port uri2 h2 p2 i
          (with_new-get lib laws cli ph pp _ _ uri1 h1 p1 h2 p2 eph epp eh ep) in
      (
        i,
        cli',
        record one { connection = some i },
        record two { connection = some i },
        mnhttpc_new-accepted lib first cli uri1 h1 p1 a1
            ∙ with_connection-at first one uri1 h1 p1 cli cli' i made
                (with_new-is_same_peer lib laws cli ph pp uri1 h1 p1 h1 p1 refl refl),
        mnhttpc_new-accepted lib second cli' uri2 h2 p2 a2
            ∙ with_connection-at second two uri2 h2 p2 cli' cli' i found
                (with_new-is_same_peer lib laws cli ph pp uri1 h1 p1 h2 p2 eh ep),
        refl,
        refl,
      )
