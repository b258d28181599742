-- ===== src/Client/Plain.antt =====
-- The hash of strings filled in by a plain list, for runs of the models.
use mnapp.Client.Headers.{HashLaws}
use mnapp.Client.Request.{Hash}
use mnapp.Shared.Plain.{plain, same, same_iff}
use mnapp.Shared.{◌≡◌, ◌≢◌, refl, arith, Option, none, some, List, [], ◌∷◌, if◌then◌else◌, Bytes}

abbrev pub Pairs : Type 0
Pairs = List (Bytes × Bytes)

unfoldable pub get : Bytes → Pairs → Option Bytes
get k [] = none
get k ((j, v) ∷ h) = if same j k then some v else get k h

abbrev pub hash : Hash Bytes Pairs
hash = record {
  hash_init = [];
  hash_get_item = get;
  hash_set_item = λ k v h. (k, v) ∷ h;
  items = λ h. h;
}

pub get_self : (k v : Bytes) (h : Pairs) → get k ((k, v) ∷ h) ≡ some v
unfolding get
get_self k v h = rw ((same_iff k k).1 refl) refl

pub get-other : (k v : Bytes) (h : Pairs) (j : Bytes) → k ≢ j → get j ((k, v) ∷ h) ≡ get j h
unfolding get
get-other k v h j ne = ground (arith, same_iff k j)

pub get-congruent : (k j : Bytes) (h : Pairs) → k ≡ j → get k h ≡ get j h
get-congruent k j h e = rw (e) refl

pub get-empty : (k : Bytes) → get k [] ≡ none
unfolding get
get-empty k = refl

abbrev pub laws : HashLaws plain hash
laws = record {
  get-init = get-empty;
  get-set_self = get_self;
  get-set_other = get-other;
  get-same = get-congruent;
}
