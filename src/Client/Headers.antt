-- ===== src/Client/Headers.antt =====
-- The header of a response, as the client keeps it.
use mnapp.Client.Request.{
  Hash, Request, mnhttpc_request_init, mnhttpc_request_in_header, mnhttpc_response_header_cb,
}
use mnapp.Http.Ctx.{Ctx, Stream}
use mnapp.Http.Message.{cstr}
use mnapp.Shared.MnBytes.{MnBytes}
use mnapp.Shared.{
  or_else, ◌≡◌, ◌≢◌, inl, inr, Option, none, some, List, [], ◌∷◌, arith, if◌then◌else◌, drop,
  Bool-cases,
}

-- The laws of a hash whose keys are compared by their bytes.
pub record HashLaws {B H : Type 0} (strings : MnBytes B) (hash : Hash B H) : Type 0 where
  pub get-init : (k : B) → hash.hash_get_item k hash.hash_init ≡ none
  pub get-set_self : (k v : B) (h : H) → hash.hash_get_item k (hash.hash_set_item k v h) ≡ some v
  pub get-set_other :
      (k v : B) (h : H) (j : B)
      → strings.cdata k ≢ strings.cdata j
      → hash.hash_get_item j (hash.hash_set_item k v h) ≡ hash.hash_get_item j h
  pub get-same :
      (k j : B) (h : H)
      → strings.cdata k ≡ strings.cdata j
      → hash.hash_get_item k h ≡ hash.hash_get_item j h

module _ {B : Type 0} (strings : MnBytes B) (set_lower : B → B) where
  open strings use {from_str, cmp_eq}

  -- The name in lower case and the value that the context marks in the stream.
  unfoldable pub name_of : Ctx → Stream → B
  name_of ctx bs = set_lower (from_str (cstr (drop ctx.current_header_name.start bs.buffer)))

  unfoldable pub value_of : Ctx → Stream → B
  value_of ctx bs = from_str (cstr (drop ctx.current_header_value.start bs.buffer))

  -- The value of the first field of which the name in lower case is the key.
  unfoldable pub first_value : B → List (Ctx × Stream) → Option B
  unfolding name_of value_of
  first_value k [] = none
  first_value k ((ctx, bs) ∷ fields) =
      if cmp_eq (some (name_of ctx bs)) k then some (value_of ctx bs) else first_value k fields

module _ {B H : Type 0} (strings : MnBytes B) (hash : Hash B H) (laws : HashLaws strings hash) where
  open strings use {cdata, cmp_eq, cmp_eq_iff}
  open hash use {hash_get_item, hash_set_item}
  open laws use {get-set_self, get-set_other, get-same}

  -- One field: it counts only where its name was not there.
  keep_first : B → B → H → H
  keep_first n v h = elim (hash_get_item n h) [ some _ ↦ h | none ↦ hash_set_item n v h ]

  get-keep_first :
      (k n v : B) (h : H)
      → hash_get_item k (keep_first n v h)
        ≡ or_else (hash_get_item k h) (if cmp_eq (some n) k then some v else none)
  unfolding keep_first or_else
  get-keep_first k n v h = elim (Bool-cases (cmp_eq (some n) k)) [
    | inl same ↦
        let e = (cmp_eq_iff n k).0 same in
        ground
          (arith, same, get-same n k h e, get-same n k (hash_set_item n v h) e, get-set_self n v h)
    | inr other ↦ ground (arith, other, cmp_eq_iff n k, get-set_other n v h k)
  ]

module _ {B H W F D : Type 0} (strings : MnBytes B) (hash : Hash B H) (laws : HashLaws strings hash)
    (set_lower : B → B) where
  open hash use {hash_get_item}

  -- The fields that the parser calls back for, one after the other: its context and its stream.
  unfoldable pub call_all : List (Ctx × Stream) → Request B H W F D → Request B H W F D
  unfolding mnhttpc_response_header_cb
  call_all [] req = req
  call_all ((ctx, bs) ∷ fields) req =
      call_all fields (mnhttpc_response_header_cb hash strings set_lower ctx bs req).udata

  header_cb-keep_first :
      (ctx : Ctx) (bs : Stream) (req : Request B H W F D)
      → (mnhttpc_response_header_cb hash strings set_lower ctx bs req).udata.response.headers
        ≡ keep_first strings hash laws
            (name_of strings set_lower ctx bs)
            (value_of strings set_lower ctx bs)
            req.response.headers
  unfolding mnhttpc_response_header_cb keep_first name_of value_of
  header_cb-keep_first ctx bs req = ground arith

  pub call_all-or_else :
      (k : B) (fields : List (Ctx × Stream)) (req : Request B H W F D)
      → hash_get_item k (call_all fields req).response.headers
        ≡ or_else (hash_get_item k req.response.headers) (first_value strings set_lower k fields)
  unfolding call_all first_value or_else
  call_all-or_else k [] req = ground arith
  call_all-or_else k ((ctx, bs) ∷ fields) req =
      let n = name_of strings set_lower ctx bs in
      let v = value_of strings set_lower ctx bs in
      let r = (mnhttpc_response_header_cb hash strings set_lower ctx bs req).udata in
      ground (
        arith,
        call_all-or_else k fields r,
        header_cb-keep_first ctx bs req,
        get-keep_first strings hash laws k n v req.response.headers,
      )

-- Of the header fields that mnhttpc_response_header_cb is called for on a new request,
-- mnhttpc_request_in_header gives, for every key, the value of the first of which the name in lower
-- case is the key. The key itself is not put in lower case.
pub mnhttpc_response_header_cb-first :
    {B H : Type 0} (W F D : Type 0) (strings : MnBytes B) (hash : Hash B H)
    (laws : HashLaws strings hash) (set_lower : B → B) (name : B) (fields : List (Ctx × Stream))
    → mnhttpc_request_in_header hash
        (call_all strings hash laws set_lower fields
          (mnhttpc_request_init hash {W = W} {F = F} {D = D}))
        name
      ≡ first_value strings set_lower name fields
unfolding mnhttpc_request_in_header mnhttpc_request_init or_else
mnhttpc_response_header_cb-first W F D strings hash laws set_lower name fields =
    let req : Request _ _ W F D = mnhttpc_request_init hash in
    ground (arith, call_all-or_else strings hash laws set_lower name fields req, laws.get-init name)
