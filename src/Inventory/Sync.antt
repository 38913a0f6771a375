-- ===== src/Inventory/Sync.antt =====
-- cmd/service/main.go: `syncInventory`, `sendWSInventoryHash` and `refreshWSInventoryHash`. The server
-- and dpkg-query are parameters; a failure to save the state is only logged.
use appcenter_agent_linux.Base.{
  ℕ, ◌+◌, ◌*◌, ◌++◌, Bool, true, false, not, ◌&&◌, ◌||◌, List, [], ◌∷◌, if◌then◌else◌, Option, none,
  some, ltb, length,
}
use appcenter_agent_linux.Text.{Text, trim_space, is_empty, equal_fold}
use appcenter_agent_linux.Api.{Error, Result, ok, err}
use appcenter_agent_linux.Dedup.{second}
use appcenter_agent_linux.Inventory.{SoftwareItem, hash}

-- internal/api/client.go: `InventoryRequest`
pub record InventoryRequest : Type 0 where
  pub inventory_hash : Text
  pub software_count : ℕ
  pub items : List SoftwareItem

-- The variables of `main` about the inventory. `state_hash` is the state's `InventoryHash`;
-- `submits` are the requests made, and `sends` the hashes sent over the WebSocket, newest last.
pub record Inventory : Type 0 where
  pub state_hash : Text
  pub last_sent : Text
  pub last_sent_at : ℕ
  pub submits : List InventoryRequest
  pub sends : List Text

pub record Env : Type 0 where
  pub sha : Text → Text
  pub collected : Result (List SoftwareItem)
  pub submit : InventoryRequest → Option Error
  -- time.Now(), in nanoseconds
  pub now : ℕ
  -- whether there is a client, and whether it sends an event
  pub has_client : Bool
  pub sends_event : Text → Bool

abbrev pub request : Env → List SoftwareItem → InventoryRequest
request env items = record {
  inventory_hash = hash env.sha items;
  software_count = length items;
  items = items;
}

-- syncInventory after the answer to the request
unfoldable pub submitted : InventoryRequest → Option Error → Inventory → Bool × Inventory
submitted req none inv =
    (true, record inv { state_hash = req.inventory_hash; submits = inv.submits ++ req ∷ [] })
submitted req (some e) inv = (false, record inv { submits = inv.submits ++ req ∷ [] })

-- strings.EqualFold(strings.TrimSpace(a), strings.TrimSpace(b))
unfoldable pub same_hash : Text → Text → Bool
same_hash a b = equal_fold (trim_space a) (trim_space b)

-- syncInventory after Collect
unfoldable pub sync_collected :
    Env → Bool → Result (List SoftwareItem) → Inventory → Bool × Inventory
unfolding submitted same_hash
sync_collected env force (err e) inv = (false, inv)
sync_collected env force (ok items) inv =
    let req = request env items in
    if not force && same_hash inv.state_hash (hash env.sha items)
    then (true, inv)
    else submitted req (env.submit req) inv

-- syncInventory
unfoldable pub sync_inventory : Env → Bool → Inventory → Bool × Inventory
unfolding sync_collected
sync_inventory env force inv = sync_collected env force env.collected inv

abbrev pub ws_inventory_hash_interval : ℕ
ws_inventory_hash_interval = 15 * 60 * second

-- What was sent already, and not long ago
unfoldable pub is_fresh : Env → Text → Inventory → Bool
is_fresh env h inv =
    equal_fold h inv.last_sent && ltb env.now (inv.last_sent_at + ws_inventory_hash_interval)

-- sendWSInventoryHash
unfoldable pub send_ws_inventory_hash : Env → Bool → Inventory → Inventory
unfolding is_fresh
send_ws_inventory_hash env force inv =
    let h = trim_space inv.state_hash in
    if not env.has_client || is_empty h || not force && is_fresh env h inv
    then inv
    else if env.sends_event h
    then record inv { last_sent = h; last_sent_at = env.now; sends = inv.sends ++ h ∷ [] }
    else inv

-- refreshWSInventoryHash after Collect
unfoldable pub refresh_collected : Env → Bool → Result (List SoftwareItem) → Inventory → Inventory
unfolding send_ws_inventory_hash
refresh_collected env force (err e) inv = inv
refresh_collected env force (ok items) inv =
    let h = hash env.sha items in
    if is_empty (trim_space h)
    then inv
    else if equal_fold (trim_space inv.state_hash) h
    then send_ws_inventory_hash env force inv
    else send_ws_inventory_hash env true (record inv { state_hash = h })

-- refreshWSInventoryHash
unfoldable pub refresh_ws_inventory_hash : Env → Bool → Inventory → Inventory
unfolding refresh_collected
refresh_ws_inventory_hash env force inv = refresh_collected env force env.collected inv
