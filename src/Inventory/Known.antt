-- ===== src/Inventory/Known.antt =====
-- cmd/service/main.go: the inventory's hash in the state, and what the server has been given.
use appcenter_agent_linux.Base.{
  ◌++◌, ◌≡◌, refl, ap, ◌∙◌, sym, subst, Bool, true, false, not, ◌&&◌, List, [], ◌∷◌, if_split,
  Option, none, some, map, arith,
}
use appcenter_agent_linux.Text.{Text, trim_space, is_empty, equal_fold, fold_case}
use appcenter_agent_linux.Text.Laws.{same_refl}
use appcenter_agent_linux.Api.{Error, Result, ok, err}
use appcenter_agent_linux.Inventory.{SoftwareItem, hash}
use appcenter_agent_linux.Inventory.Sync.{
  Inventory, Env, request, submitted, same_hash, sync_collected, sync_inventory,
  send_ws_inventory_hash, refresh_collected, refresh_ws_inventory_hash,
}

pub equal_fold_refl : (s : Text) → equal_fold s s ≡ true
unfolding equal_fold
equal_fold_refl s = same_refl (map fold_case s)

-- The three outcomes of a sync: the collection failed; the hash was known and nothing was sent; or
-- the collected items were sent, and the hash is known exactly if the server took them.
pub data Synced (env : Env) (force : Bool) (inv : Inventory) : Bool × Inventory → Type 0 where
  uncollected : (e : Error) → env.collected ≡ err e → Synced env force inv (false, inv)
  unchanged :
      (items : List SoftwareItem)
      → env.collected ≡ ok items
      → force ≡ false
      → same_hash inv.state_hash (hash env.sha items) ≡ true
      → Synced env force inv (true, inv)
  taken :
      (items : List SoftwareItem)
      → env.collected ≡ ok items
      → env.submit (request env items) ≡ none
      → Synced env force inv (
        true,
        record inv {
          state_hash = hash env.sha items;
          submits = inv.submits ++ request env items ∷ [];
        },
      )
  refused :
      (items : List SoftwareItem) (e : Error)
      → env.collected ≡ ok items
      → env.submit (request env items) ≡ some e
      → Synced env force inv (false, record inv { submits = inv.submits ++ request env items ∷ [] })

submitted-Synced :
    (env : Env) (force : Bool) (items : List SoftwareItem) (inv : Inventory) (r : Option Error)
    → env.collected ≡ ok items
    → env.submit (request env items) ≡ r
    → Synced env force inv (submitted (request env items) r inv)
unfolding submitted
submitted-Synced env force items inv none c e = taken items c e
submitted-Synced env force items inv (some x) c e = refused items x c e

sync_collected-Synced :
    (env : Env) (force : Bool) (r : Result (List SoftwareItem)) (inv : Inventory)
    → env.collected ≡ r
    → Synced env force inv (sync_collected env force r inv)
unfolding sync_collected
sync_collected-Synced env force (err e) inv c = uncollected e c
sync_collected-Synced env force (ok items) inv c =
    if_split (Synced env force inv) (not force && same_hash inv.state_hash (hash env.sha items))
      (λ e. unchanged items c (ground arith) (ground arith))
      (λ e. submitted-Synced env force items inv (env.submit (request env items)) c refl)

-- A synchronisation of the inventory has one of four outcomes: the collection fails and nothing
-- changes; the hash is the one known and the synchronisation is not forced, and nothing changes;
-- the inventory is submitted, taken, and its hash noted; or it is submitted and refused, and no
-- hash is noted.
pub sync_inventory-Synced :
    (env : Env) (force : Bool) (inv : Inventory)
    → Synced env force inv (sync_inventory env force inv)
unfolding sync_inventory
sync_inventory-Synced env force inv = sync_collected-Synced env force env.collected inv refl

send-state_hash :
    (env : Env) (force : Bool) (inv : Inventory)
    → (send_ws_inventory_hash env force inv).state_hash ≡ inv.state_hash
unfolding send_ws_inventory_hash
send-state_hash env force inv = ground arith

module _ (env : Env) (force : Bool) (items : List SoftwareItem) where
  kept_hash :
      (inv : Inventory)
      → trim_space (hash env.sha items) ≡ hash env.sha items
      → equal_fold (trim_space inv.state_hash) (hash env.sha items) ≡ true
      → same_hash (send_ws_inventory_hash env force inv).state_hash (hash env.sha items) ≡ true
  unfolding same_hash
  kept_hash inv t e =
      ap (λ h. equal_fold (trim_space h) (trim_space (hash env.sha items)))
        (send-state_hash env force inv)
      ∙ ap (equal_fold (trim_space inv.state_hash)) t
      ∙ e

  new_hash :
      (inv : Inventory)
      → inv.state_hash ≡ hash env.sha items
      → same_hash (send_ws_inventory_hash env true inv).state_hash (hash env.sha items) ≡ true
  unfolding same_hash
  new_hash inv e =
      ap (λ h. equal_fold (trim_space h) (trim_space (hash env.sha items)))
        (send-state_hash env true inv ∙ e)
      ∙ equal_fold_refl (trim_space (hash env.sha items))

  -- After a refresh the state's hash is the collected one.
  refreshed_hash :
      (inv : Inventory)
      → trim_space (hash env.sha items) ≡ hash env.sha items
      → is_empty (hash env.sha items) ≡ false
      → same_hash (refresh_collected env force (ok items) inv).state_hash (hash env.sha items)
        ≡ true
  unfolding refresh_collected
  refreshed_hash inv t n =
      let h = hash env.sha items in
      let P = λ (x : Inventory). same_hash x.state_hash h ≡ true in
      if_split P (is_empty (trim_space h)) (λ e. ground (arith, t))
        (λ e.
          if_split P (equal_fold (trim_space inv.state_hash) h) (kept_hash inv t)
            (λ d. new_hash (record inv { state_hash = h }) refl))

  unchanged_sync :
      (inv : Inventory)
      → same_hash inv.state_hash (hash env.sha items) ≡ true
      → sync_collected env false (ok items) inv ≡ (true, inv)
  unfolding sync_collected
  unchanged_sync inv e = ground (arith, e)

-- After a refresh of the inventory hash over the WebSocket, a synchronisation that is not forced
-- and collects the same packages submits nothing and changes nothing, whatever hash the server had
-- before; the hash is taken to be neither empty nor to have outer space.
pub refresh_then_sync :
    (env : Env) (force : Bool) (items : List SoftwareItem) (inv : Inventory)
    → env.collected ≡ ok items
    → trim_space (hash env.sha items) ≡ hash env.sha items
    → is_empty (hash env.sha items) ≡ false
    → let inv' = refresh_ws_inventory_hash env force inv in
      sync_inventory env false inv' ≡ (true, inv')
unfolding refresh_ws_inventory_hash sync_inventory
refresh_then_sync env force items inv c t n =
    let inv' = refresh_collected env force (ok items) inv in
    subst
      (λ r.
        sync_collected env false r (refresh_collected env force r inv)
        ≡ (true, refresh_collected env force r inv))
      (sym c) (unchanged_sync env force items inv' (refreshed_hash env force items inv t n))
