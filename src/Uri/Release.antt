-- ===== src/Uri/Release.antt =====
-- src/mnhttp.c: `mnhttp_uri_fini`.
use mnapp.Shared.Owned.{
  Owned, Releases, ReleaseLaws, decref_any, item_fini, release_all, owned_any, owned_items,
  each-release,
}
use mnapp.Shared.{◌≡◌, ◌∙◌, none, List, ◌++◌}
use mnapp.Uri.Defs.{Uri}

module _ {B H W : Type 0} (calls : Releases B H W) where
  open calls use {hash_fini}

  unfoldable pub mnhttp_uri_fini : Uri B H → W → Uri B H × W
  unfolding decref_any item_fini
  mnhttp_uri_fini uri w =
      let w1 = decref_any calls uri.password (decref_any calls uri.user w) in
      let w2 = decref_any calls uri.port (decref_any calls uri.host w1) in
      let w3 = decref_any calls uri.path (decref_any calls uri.relative w2) in
      let w4 = decref_any calls uri.fragment (decref_any calls uri.qstring w3) in
      let (qterms, w5) = hash_fini (item_fini calls) uri.qterms w4 in
      (
        record {
          scheme = uri.scheme;
          user = none;
          password = none;
          host = none;
          port = none;
          relative = none;
          path = none;
          qstring = none;
          fragment = none;
          qterms = qterms;
          qtermsz = 0;
        },
        w5,
      )

  module _ (laws : ReleaseLaws calls) where
    open laws use {items, hash_fini-each}

    -- The strings of a URI.
    unfoldable pub uri_owned : Uri B H → List (Owned B)
    unfolding owned_any owned_items
    uri_owned uri =
        owned_any uri.user
        ++ owned_any uri.password
        ++ owned_any uri.host
        ++ owned_any uri.port
        ++ owned_any uri.relative
        ++ owned_any uri.path
        ++ owned_any uri.qstring
        ++ owned_any uri.fragment
        ++ owned_items (items uri.qterms)

    pub hash_fini-release :
        (h : H) (w : W)
        → (hash_fini (item_fini calls) h w).1 ≡ release_all calls (owned_items (items h)) w
    hash_fini-release h w = hash_fini-each (item_fini calls) h w ∙ each-release calls (items h) w
