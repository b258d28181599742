-- ===== src/Client/Request.antt =====
-- src/mnhttpc.c: `mnhttpc_message_init_out` to `mnhttpc_request_in_header`, and
-- `mnhttpc_response_header_cb`. src/mnhttpc.h: `mnhttpc_message_t`, `mnhttpc_request_t`.
use mnapp.Http.Body.{Callback}
use mnapp.Http.Ctx.{Ctx, http_ctx_init}
use mnapp.Http.Message.{cstr}
use mnapp.Shared.Int.{ℤ, negsuc}
use mnapp.Shared.MnBytes.{MnBytes}
use mnapp.Shared.{ℕ, false, Option, none, some, List, Bytes, drop, length}
use mnapp.Uri.Defs.{Uri, mnhttp_uri_init}
use mnapp.Writer.Uri.{QueryTerms, mnhttp_uri_add_qterm}

-- A hash of mncommon from strings to strings.
pub record Hash (B H : Type 0) : Type 0 where
  pub hash_init : H
  pub hash_get_item : B → H → Option B
  pub hash_set_item : B → B → H → H
  -- the items in the order of `hash_first` and `hash_next`
  pub items : H → List (B × B)

-- The member `out` of `mnhttpc_message_t`.
pub record MessageOut (B H : Type 0) : Type 0 where
  pub method : Option Bytes
  pub uri : Uri B H
  pub headers : H
  pub content_type : Option B
  pub content_length : ℕ
  pub keepalive : ℤ

-- The member `in`.
pub record MessageIn (B H : Type 0) : Type 0 where
  pub ctx : Ctx
  pub content_type : Option B
  pub headers : H
  pub keepalive : ℤ

-- `mnhttpc_request_t`. `connection` is the place of the connection in the client's memory. `W` stands
-- for the stream that is printed to, `F` for the pointers to callbacks on a response's body, and `D`
-- for the user's data. The link of the queue and the signal are in the models of what uses them.
pub record Request (B H W F D : Type 0) : Type 0 where
  pub connection : Option ℕ
  pub out_body_cb : Option (W → Option D → W)
  pub out_body_cb_udata : Option D
  pub in_body_cb : Option F
  pub request : MessageOut B H
  pub response : MessageIn B H

module _ {B H : Type 0} (hash : Hash B H) where
  open hash use {hash_init}

  unfoldable pub mnhttpc_message_init_out : MessageOut B H
  mnhttpc_message_init_out = record {
    method = none;
    uri = mnhttp_uri_init hash_init;
    headers = hash_init;
    content_type = none;
    content_length = 0;
    keepalive = negsuc 0;
  }

  unfoldable pub mnhttpc_message_init_in : MessageIn B H
  mnhttpc_message_init_in = record {
    ctx = http_ctx_init;
    content_type = none;
    headers = hash_init;
    keepalive = negsuc 0;
  }

  -- `mnhttpc_request_init`, and `mnhttpc_request_new`, which allocates and calls it.
  unfoldable pub mnhttpc_request_init : {W F D : Type 0} → Request B H W F D
  unfolding mnhttpc_message_init_out mnhttpc_message_init_in
  mnhttpc_request_init = record {
    connection = none;
    out_body_cb = none;
    out_body_cb_udata = none;
    in_body_cb = none;
    request = mnhttpc_message_init_out;
    response = mnhttpc_message_init_in;
  }

module _ {B H W F D : Type 0} (hash : Hash B H) where
  open hash use {hash_get_item, hash_set_item}

  unfoldable pub mnhttpc_request_out_field_addb : Request B H W F D → B → B → Request B H W F D
  mnhttpc_request_out_field_addb req name value = record req {
    request = record req.request { headers = hash_set_item name value req.request.headers };
  }

  unfoldable pub mnhttpc_request_out_header : Request B H W F D → B → Option B
  mnhttpc_request_out_header req name = hash_get_item name req.request.headers

  unfoldable pub mnhttpc_request_in_header : Request B H W F D → B → Option B
  mnhttpc_request_in_header req name = hash_get_item name req.response.headers

  module _ (strings : MnBytes B) where
    open strings use {from_str, from_str_len}

    -- `text` is what `fmt` makes of the arguments.
    unfoldable pub mnhttpc_request_out_field_addf :
        Request B H W F D → B → Bytes → Request B H W F D
    unfolding mnhttpc_request_out_field_addb
    mnhttpc_request_out_field_addf req name text =
        mnhttpc_request_out_field_addb req name (from_str text)

    -- `date` stands for `gmtime` and `strftime`.
    unfoldable pub mnhttpc_request_out_field_addt :
        (ℤ → Bytes) → Request B H W F D → B → ℤ → Request B H W F D
    unfolding mnhttpc_request_out_field_addb
    mnhttpc_request_out_field_addt date req name t =
        let buf = date t in mnhttpc_request_out_field_addb req name (from_str_len buf (length buf))

    -- `set_lower` is `bytes_set_lower` of mncommon.
    unfoldable pub mnhttpc_response_header_cb : (B → B) → Callback (Request B H W F D)
    unfolding cstr
    mnhttpc_response_header_cb set_lower ctx bs req =
        let name = set_lower (from_str (cstr (drop ctx.current_header_name.start bs.buffer))) in
        let value = from_str (cstr (drop ctx.current_header_value.start bs.buffer)) in
        elim (hash_get_item name req.response.headers) [
          | some _ ↦ record { failed = false; udata = req }
          | none ↦ record {
            failed = false;
            udata = record req {
              response = record req.response {
                headers = hash_set_item name value req.response.headers;
              };
            };
          }
        ]

-- It returns 0.
unfoldable pub mnhttpc_response_line_cb : {R : Type 0} → Callback R
mnhttpc_response_line_cb ctx bs req = record { failed = false; udata = req }

unfoldable pub mnhttpc_request_out_qterm_addb :
    {B H W F D : Type 0} → QueryTerms B H → Request B H W F D → B → B → Request B H W F D
unfolding mnhttp_uri_add_qterm
mnhttpc_request_out_qterm_addb terms req name value = record req {
  request = record req.request { uri = mnhttp_uri_add_qterm terms req.request.uri name value };
}
