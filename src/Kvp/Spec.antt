-- ===== src/Kvp/Spec.antt =====
-- What the key-value parsers promise: the text is cut at each `rdelim`, and each piece at its first
-- `fdelim`; a piece with no key is skipped.
use mnapp.Kvp.Defs.{MnHash}
use mnapp.Shared.{ℕ, ◌==◌, if◌then◌else◌, Bytes, List, [], ◌∷◌, length}

-- `piece` with `c` in front of its first part.
abbrev pub grow_first : ℕ → List Bytes → List Bytes
grow_first c [] = (c ∷ []) ∷ []
grow_first c (piece ∷ pieces) = (c ∷ piece) ∷ pieces

unfoldable pub pieces : ℕ → Bytes → List Bytes
pieces rdelim [] = [] ∷ []
pieces rdelim (c ∷ s) =
    let rest = pieces rdelim s in if c == rdelim then [] ∷ rest else grow_first c rest

-- The parts in front of the first `fdelim` and behind it.
unfoldable pub key_of : ℕ → Bytes → Bytes
key_of fdelim [] = []
key_of fdelim (c ∷ s) = let rest = c ∷ key_of fdelim s in if c == fdelim then [] else rest

unfoldable pub value_of : ℕ → Bytes → Bytes
value_of fdelim [] = []
value_of fdelim (c ∷ s) = let rest = value_of fdelim s in if c == fdelim then s else rest

module _ {B W : Type 0} (lib : MnHash B W) (keydecode valdecode : B → B) (fdelim : ℕ) where
  open lib use {new_from_str_len, hash_set_item}

  abbrev pub string : Bytes → B
  string t = new_from_str_len t (length t)

  unfoldable pub store_pair : Bytes → Bytes → W → W
  store_pair [] value hash = hash
  store_pair (c ∷ key) value hash =
      hash_set_item (keydecode (string (c ∷ key))) (valdecode (string value)) hash

  unfoldable pub store_piece : Bytes → W → W
  unfolding store_pair key_of value_of
  store_piece piece hash = store_pair (key_of fdelim piece) (value_of fdelim piece) hash

  unfoldable pub store_pieces : List Bytes → W → W
  unfolding store_piece
  store_pieces [] hash = hash
  store_pieces (p ∷ ps) hash = store_pieces ps (store_piece p hash)
