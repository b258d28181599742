-- ===== src/Uri/Text.antt =====
-- The texts that the parts of a parsed URI spell.
use mnapp.Shared.MnBytes.{MnBytes}
use mnapp.Shared.{Option, none, some, [], ◌∷◌, ◌++◌, Bytes}
use mnapp.Uri.Defs.{Uri}

module _ {B : Type 0} (lib : MnBytes B) where
  open lib use {cdata}

  -- The text of the stored parts.
  abbrev pub user_text : Option B → Option B → Bytes
  user_text none p = []
  user_text (some u) none = cdata u ++ (b'@' ∷ [])
  user_text (some u) (some p) = cdata u ++ (b':' ∷ (cdata p ++ (b'@' ∷ [])))

  abbrev pub host_text : Option B → Option B → Bytes
  host_text none p = []
  host_text (some h) none = cdata h
  host_text (some h) (some p) = cdata h ++ (b':' ∷ cdata p)

  -- What follows the host: `relative`, or for a serial device the path.
  abbrev pub tail_text : Option B → Option B → Bytes
  tail_text (some r) p = cdata r
  tail_text none none = []
  tail_text none (some p) = cdata p

  -- The path, the query behind a `?`, and the fragment.
  abbrev pub path_text : Option B → Option B → Option B → Bytes
  path_text none q f = []
  path_text (some p) none none = cdata p
  path_text (some p) none (some f) = cdata p ++ cdata f
  path_text (some p) (some q) none = cdata p ++ (b'?' ∷ cdata q)
  path_text (some p) (some q) (some f) = cdata p ++ (b'?' ∷ (cdata q ++ cdata f))

module _ {B H : Type 0} (lib : MnBytes B) where
  abbrev pub uri_text : Uri B H → Bytes
  uri_text u =
      user_text lib u.user u.password
      ++ (host_text lib u.host u.port ++ tail_text lib u.relative u.path)
