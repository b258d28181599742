-- ===== src/Uri/Default.antt =====
-- The port of a URI whose text names a scheme of the web.
use mnapp.Shared.MnBytes.{MnBytes}
use mnapp.Shared.{◌≡◌, ◌≢◌, if◌then◌else◌, Option, some, [], ◌||◌, Bool, Bytes, codes}
use mnapp.Uri.Defs.{Scheme, http, https, ws, wss, is_scheme, Uri}

abbrev pub is_web : Scheme → Bool
is_web c = is_scheme c http || is_scheme c https || is_scheme c ws || is_scheme c wss

-- The port of a scheme of the web.
abbrev pub web_port : Scheme → Bytes
web_port http = codes "80"
web_port https = codes "443"
web_port ws = codes "80"
web_port wss = codes "443"
web_port _ = []

module _ {B : Type 0} (lib : MnBytes B) where
  open lib use {
    cdata, from_str, cdata-from_str, is_null_or_empty, null_is_null_or_empty, is_null_or_empty_iff,
  }

  -- The port that is there, or else that of the scheme.
  abbrev pub port_or : Scheme → Option B → Option B
  port_or c port = if is_null_or_empty port then some (from_str (web_port c)) else port

module _ {B H : Type 0} (lib : MnBytes B) where
  open lib use {cdata, from_str, cdata-from_str, is_null_or_empty}

  -- A port that is there, and not empty.
  abbrev pub HasPort : Uri B H → Type 0
  HasPort u = (p : B) × (u.port ≡ some p) × (cdata p ≢ [])
