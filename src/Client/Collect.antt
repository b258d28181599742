-- ===== src/Client/Collect.antt =====
-- src/mnhttpc.c: `mnhttpc_connection_destroy`, `mnhttpc_gc`, `mnhttpc_fini`, and `mnhttpc_response_in_body_cb_wrap`,
-- which no other function calls.
use mnapp.Client.Connection.{Calls, Connection, mnhttpc_connection_fini, mnhttpc_connection_gc}
use mnapp.Client.New.{Client}
use mnapp.Client.Request.{Request}
use mnapp.Http.Body.{Callback}
use mnapp.Http.Ctx.{chunk_data}
use mnapp.Shared.{ℕ, Bool, false, Option, none, some, List, [], ◌∷◌, if◌then◌else◌, get_elem?, set}

module _ {B T S R W : Type 0} (calls : Calls T W R) (free_object : W → W) where
  -- The pointer is NULL then. `mnhttpc_connection_item_fini` calls it with the key of an item.
  unfoldable pub mnhttpc_connection_destroy :
      Option (Connection B T S R) → W → Option (Connection B T S R) × W
  unfolding mnhttpc_connection_fini
  mnhttpc_connection_destroy none w = (none, w)
  mnhttpc_connection_destroy (some conn) w =
      (none, free_object (mnhttpc_connection_fini calls (conn, w)).1)

  -- `hash_fini` calls `mnhttpc_connection_item_fini` for the keys at the places, in order. `none`
  -- means that a place is out of the memory.
  unfoldable pub destroy_connections : List ℕ → List (Connection B T S R) → W → Option W
  unfolding mnhttpc_connection_destroy
  destroy_connections [] memory w = some w
  destroy_connections (i ∷ places) memory w = elim (get_elem? memory i) [
    | none ↦ none
    | some conn ↦ destroy_connections places memory (mnhttpc_connection_destroy (some conn) w).1
  ]

  -- `places` gives the keys of the hash in the order of `hash_fini`.
  unfoldable pub mnhttpc_fini : {K : Type 0} → (K → List ℕ) → Client B T S R K → W → Option W
  unfolding destroy_connections
  mnhttpc_fini places cli w = destroy_connections (places cli.connections) cli.memory w

module _ {B T S R : Type 0} (fresh : S) (acquired : ℕ → Bool) where
  -- The connections at the places, in order, until one gives an error: its semaphore could not be
  -- had. `none` means that a place is out of the memory.
  unfoldable pub traverse : List ℕ → List (Connection B T S R) → Option (List (Connection B T S R))
  unfolding mnhttpc_connection_gc
  traverse [] memory = some memory
  traverse (i ∷ places) memory = elim (get_elem? memory i) [
    | none ↦ none
    | some conn ↦
        let (left, ok) = mnhttpc_connection_gc fresh (acquired i) conn in
        let rest = traverse places (set memory i left) in
        if ok then rest else some (set memory i left)
  ]

  -- `places` gives the keys of the hash in the order of `hash_traverse`.
  unfoldable pub mnhttpc_gc :
      {K : Type 0} → (K → List ℕ) → Client B T S R K → Option (Client B T S R K)
  unfolding traverse
  mnhttpc_gc places cli = elim (traverse (places cli.connections) cli.memory) [
    | none ↦ none
    | some memory ↦ some (record cli { memory = memory })
  ]

-- `call` runs a body callback of the user's.
unfoldable pub mnhttpc_response_in_body_cb_wrap :
    {B H S F D : Type 0} → (F → Callback (Request B H S F D)) → Callback (Request B H S F D)
mnhttpc_response_in_body_cb_wrap call ctx bs req = elim req.in_body_cb [
  | none ↦ record { failed = false; udata = req }
  | some f ↦ elim ctx.chunk_parser_state [ chunk_data ↦ call f ctx bs req | _ ↦ call f ctx bs req ]
]
