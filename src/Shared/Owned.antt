-- ===== src/Shared/Owned.antt =====
-- What objects hold in memory, and the functions that release it: of mncommon, and of the C library.
use mnapp.Shared.{◌≡◌, refl, Option, none, some, List, [], ◌∷◌, ◌++◌, Bytes}

-- A counted string, or a block of memory with the bytes of a C string.
pub data Owned (B : Type 0) : Type 0 where
  counted : B → Owned B
  block : Bytes → Owned B

pub record Releases (B H W : Type 0) : Type 0 where
  -- `BYTES_DECREF` on a string
  pub decref : B → W → W
  -- `free` on a block, and on the object itself
  pub free : Bytes → W → W
  pub free_object : W → W
  -- `hash_fini` with the function for an item
  pub hash_fini : (B → B → W → W) → H → W → H × W

-- The items with a function, in order.
unfoldable pub each : {B W : Type 0} → (B → B → W → W) → List (B × B) → W → W
each f [] w = w
each f ((k, v) ∷ items) w = each f items (f k v w)

-- The items of a hash, in the order of `hash_fini`: it calls the function for each, and leaves none.
pub record ReleaseLaws {B H W : Type 0} (calls : Releases B H W) : Type 0 where
  pub items : H → List (B × B)
  pub hash_fini-each :
      (f : B → B → W → W) (h : H) (w : W) → (calls.hash_fini f h w).1 ≡ each f (items h) w
  pub items-hash_fini : (f : B → B → W → W) (h : H) (w : W) → items (calls.hash_fini f h w).0 ≡ []

module _ {B H W : Type 0} (calls : Releases B H W) where
  open calls use {decref, free}

  -- `BYTES_DECREF` on a pointer, which may be NULL, and is NULL then.
  unfoldable pub decref_any : Option B → W → W
  decref_any none w = w
  decref_any (some b) w = decref b w

  -- `mnhttp_uri_qterm_fini` and `mnhttpc_request_header_item_fini`
  unfoldable pub item_fini : B → B → W → W
  item_fini k v w = decref v (decref k w)

  -- What is owned, released in order.
  unfoldable pub release_all : List (Owned B) → W → W
  release_all [] w = w
  release_all (counted b ∷ owned) w = release_all owned (decref b w)
  release_all (block bytes ∷ owned) w = release_all owned (free bytes w)

-- The string behind a pointer, if there is one.
unfoldable pub owned_any : {B : Type 0} → Option B → List (Owned B)
owned_any none = []
owned_any (some b) = counted b ∷ []

-- The strings of the items of a hash.
unfoldable pub owned_items : {B : Type 0} → List (B × B) → List (Owned B)
owned_items [] = []
owned_items ((k, v) ∷ items) = counted k ∷ counted v ∷ owned_items items

module _ {B H W : Type 0} (calls : Releases B H W) where
  pub release_all-append :
      (xs ys : List (Owned B)) (w : W)
      → release_all calls (xs ++ ys) w ≡ release_all calls ys (release_all calls xs w)
  unfolding release_all
  release_all-append [] ys w = refl
  release_all-append (counted b ∷ xs) ys w = release_all-append xs ys (calls.decref b w)
  release_all-append (block t ∷ xs) ys w = release_all-append xs ys (calls.free t w)

  pub decref_any-release :
      (b : Option B) (w : W) → decref_any calls b w ≡ release_all calls (owned_any b) w
  unfolding decref_any release_all owned_any
  decref_any-release none w = refl
  decref_any-release (some b) w = refl

  pub each-release :
      (items : List (B × B)) (w : W)
      → each (item_fini calls) items w ≡ release_all calls (owned_items items) w
  unfolding each item_fini release_all owned_items
  each-release [] w = refl
  each-release ((k, v) ∷ items) w = each-release items (item_fini calls k v w)
