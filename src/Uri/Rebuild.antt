-- ===== src/Uri/Rebuild.antt =====
-- The parts that `mnhttp_uri_parse` stores spell the text, and no assertion of it fails.
use mnapp.Shared.MnBytes.{MnBytes}
use mnapp.Shared.{◌==◌, [], ◌∷◌, ◌++◌, if◌then◌else◌, Bytes}
use mnapp.Uri.Defs.{Uri, scheme_prefix}
use mnapp.Uri.Text.{uri_text}

-- The text from its first `/` on.
unfoldable pub from_slash : Bytes → Bytes
from_slash [] = []
from_slash (c ∷ s) = if c == b'/' then c ∷ s else from_slash s

-- The text that the scheme's prefix and the other parts spell.
abbrev pub whole_text : {B H : Type 0} → MnBytes B → Uri B H → Bytes
whole_text lib u = scheme_prefix u.scheme ++ uri_text lib u
