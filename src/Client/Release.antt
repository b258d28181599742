-- ===== src/Client/Release.antt =====
-- src/mnhttpc.c: `mnhttpc_message_fini_out`, `mnhttpc_message_fini_in`, `mnhttpc_request_fini` and
-- `mnhttpc_request_destroy`.
use mnapp.Client.Request.{MessageOut, MessageIn, Request}
use mnapp.Http.Release.{ctx_owned, http_ctx_fini, http_ctx_fini-release, http_ctx_init-none}
use mnapp.Shared.Int.{negsuc}
use mnapp.Shared.Owned.{
  Owned, Releases, ReleaseLaws, decref_any, item_fini, release_all, owned_any, owned_items,
  release_all-append, decref_any-release,
}
use mnapp.Shared.{◌≡◌, refl, ap, ◌∙◌, Option, none, some, List, [], ◌++◌}
use mnapp.Uri.Release.{mnhttp_uri_fini, uri_owned, hash_fini-release}

module _ {B H W : Type 0} (calls : Releases B H W) where
  open calls use {hash_fini, free_object}

  unfoldable pub mnhttpc_message_fini_out : MessageOut B H → W → MessageOut B H × W
  unfolding decref_any item_fini mnhttp_uri_fini
  mnhttpc_message_fini_out msg w =
      let (uri, w1) = mnhttp_uri_fini calls msg.uri w in
      let w2 = decref_any calls msg.content_type w1 in
      let (headers, w3) = hash_fini (item_fini calls) msg.headers w2 in
      (
        record {
          method = none;
          uri = uri;
          headers = headers;
          content_type = none;
          content_length = 0;
          keepalive = negsuc 0;
        },
        w3,
      )

  unfoldable pub mnhttpc_message_fini_in : MessageIn B H → W → MessageIn B H × W
  unfolding decref_any item_fini http_ctx_fini
  mnhttpc_message_fini_in msg w =
      let (ctx, w1) = http_ctx_fini calls msg.ctx w in
      let w2 = decref_any calls msg.content_type w1 in
      let (headers, w3) = hash_fini (item_fini calls) msg.headers w2 in
      (record { ctx = ctx; content_type = none; headers = headers; keepalive = negsuc 0 }, w3)

  module _ {S F D : Type 0} where
    unfoldable pub mnhttpc_request_fini : Request B H S F D → W → Request B H S F D × W
    unfolding mnhttpc_message_fini_out mnhttpc_message_fini_in
    mnhttpc_request_fini req w =
        let (request, w1) = mnhttpc_message_fini_out req.request w in
        let (response, w2) = mnhttpc_message_fini_in req.response w1 in
        (
          record {
            connection = none;
            out_body_cb = none;
            out_body_cb_udata = none;
            in_body_cb = none;
            request = request;
            response = response;
          },
          w2,
        )

    -- The pointer is NULL then.
    unfoldable pub mnhttpc_request_destroy :
        Option (Request B H S F D) → W → Option (Request B H S F D) × W
    unfolding mnhttpc_request_fini
    mnhttpc_request_destroy none w = (none, w)
    mnhttpc_request_destroy (some req) w = (none, free_object (mnhttpc_request_fini req w).1)

    module _ (laws : ReleaseLaws calls) where
      open laws use {items, items-hash_fini}

      -- What a request owns: the strings of its URI, of its two headers and of its two content
      -- types, and the block of the context.
      unfoldable pub request_owned : Request B H S F D → List (Owned B)
      unfolding uri_owned owned_any owned_items ctx_owned
      request_owned req =
          uri_owned calls laws req.request.uri
          ++ owned_any req.request.content_type
          ++ owned_items (items req.request.headers)
          ++ ctx_owned req.response.ctx
          ++ owned_any req.response.content_type
          ++ owned_items (items req.response.headers)

      mnhttpc_request_fini-release :
          (req : Request B H S F D) (w : W)
          → (mnhttpc_request_fini req w).1 ≡ release_all calls (request_owned req) w
      unfolding mnhttpc_request_fini mnhttpc_message_fini_out mnhttpc_message_fini_in request_owned
      mnhttpc_request_fini-release req w = simp (
        hash_fini-release calls laws,
        http_ctx_fini-release calls,
        release_all-append calls,
        decref_any-release calls,
      )

      mnhttpc_request_fini-none :
          (req : Request B H S F D) (w : W) → request_owned (mnhttpc_request_fini req w).0 ≡ []
      unfolding mnhttpc_request_fini mnhttpc_message_fini_out mnhttpc_message_fini_in request_owned
          owned_any owned_items
      mnhttpc_request_fini-none req w = simp (items-hash_fini, http_ctx_init-none)

      -- mnhttpc_request_fini releases all that the request owns, once and in order, and leaves a
      -- request that owns nothing, for which a second call releases nothing;
      -- mnhttpc_request_destroy then frees the request too, and leaves NULL, on which it does nothing.
      pub mnhttpc_request_destroy-release :
          (req : Request B H S F D) (w : W)
          → (request_owned (mnhttpc_request_fini req w).0 ≡ [])
            × ((mnhttpc_request_fini
                  (mnhttpc_request_fini req w).0
                  (mnhttpc_request_fini req w).1).1
                ≡ (mnhttpc_request_fini req w).1)
            × (mnhttpc_request_destroy (some req) w
                ≡ (none, free_object (release_all calls (request_owned req) w)))
            × (mnhttpc_request_destroy none w ≡ (none, w))
      unfolding mnhttpc_request_destroy release_all
      mnhttpc_request_destroy-release req w = (
        mnhttpc_request_fini-none req w,
        let left = (mnhttpc_request_fini req w).0 in
            let w' = (mnhttpc_request_fini req w).1 in
            mnhttpc_request_fini-release left w'
            ∙ ap (λ o. release_all calls o w') (mnhttpc_request_fini-none req w),
        ap (λ v. (none, free_object v)) (mnhttpc_request_fini-release req w),
        refl,
      )
