-- ===== src/Http/Release.antt =====
-- src/mnhttp.c: `http_ctx_fini`, `http_ctx_new` and `http_ctx_destroy`.
use mnapp.Http.Ctx.{Ctx, http_ctx_init}
use mnapp.Shared.Owned.{Owned, block, Releases, release_all}
use mnapp.Shared.{◌≡◌, refl, Bool, Option, none, some, List, [], ◌∷◌, if◌then◌else◌, Bytes}

-- The result is NULL where there is no memory.
unfoldable pub http_ctx_new : Bool → Option Ctx
http_ctx_new has_memory = if has_memory then some http_ctx_init else none

-- The block of `request_uri`.
unfoldable pub ctx_owned : {B : Type 0} → Ctx → List (Owned B)
ctx_owned ctx = elim ctx.request_uri [ none ↦ [] | some uri ↦ block uri ∷ [] ]

module _ {B H W : Type 0} (calls : Releases B H W) where
  open calls use {free, free_object}

  unfoldable pub http_ctx_fini : Ctx → W → Ctx × W
  http_ctx_fini ctx w =
      let freed : W = elim ctx.request_uri [ none ↦ w | some uri ↦ free uri w ] in
      (http_ctx_init, freed)

  -- The pointer is NULL then.
  unfoldable pub http_ctx_destroy : Option Ctx → W → Option Ctx × W
  unfolding http_ctx_fini
  http_ctx_destroy none w = (none, w)
  http_ctx_destroy (some ctx) w = (none, free_object (http_ctx_fini ctx w).1)

  release-request_uri :
      (uri : Option Bytes) (w : W)
      → elim uri [ none ↦ w | some t ↦ free t w ]
        ≡ release_all calls (elim uri [ none ↦ [] | some t ↦ block t ∷ [] ]) w
  unfolding release_all
  release-request_uri none w = refl
  release-request_uri (some t) w = refl

  pub http_ctx_fini-release :
      (ctx : Ctx) (w : W) → (http_ctx_fini ctx w).1 ≡ release_all calls (ctx_owned ctx) w
  unfolding http_ctx_fini ctx_owned
  http_ctx_fini-release ctx w = release-request_uri ctx.request_uri w

pub http_ctx_init-none : {B : Type 0} → ctx_owned {B = B} http_ctx_init ≡ []
unfolding ctx_owned
http_ctx_init-none = refl
