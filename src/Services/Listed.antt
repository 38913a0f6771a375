-- ===== src/Services/Listed.antt =====
-- internal/services/collector.go: what the collected list may hold.
use appcenter_agent_linux.Base.{
  true, false, List, [], ◌∷◌, All, ◌≡◌, refl, ap, subst, arith, if_both, if_split,
}
use appcenter_agent_linux.Text.{Text, codes, trim_space, same}
use appcenter_agent_linux.Text.Split.{split, fields, join}
use appcenter_agent_linux.Api.{Result, ok, err}
use appcenter_agent_linux.Services.{
  ServiceItem, is_one_of, norm_status, put, is_service, Units, add_unit, read_units,
  collect_startup, item, items, insert_item, sort_items, collect, item_lt, read_startup,
}

-- The statuses that the server knows
abbrev pub statuses : List Text
statuses = codes "running" ∷ codes "stopped" ∷ codes "failed" ∷ codes "unknown" ∷ []

norm_status-known : (v : Text) → is_one_of (norm_status v) statuses ≡ true
unfolding norm_status is_one_of same
norm_status-known v = ground arith

same_sym : (s t : Text) → same s t ≡ false → same t s ≡ false
unfolding same
same_sym [] [] h = h
same_sym [] (d ∷ t) h = refl
same_sym (c ∷ s) [] h = refl
same_sym (c ∷ s) (d ∷ t) h = ground (arith, same_sym s t)

-- Entries with the name and the status of a service
abbrev IsUnit : Text × (Text × Text) → Type 0
IsUnit u = (is_service u.0 ≡ true) × (is_one_of u.1.0 statuses ≡ true)

-- No later entry has this name.
abbrev Fresh : Text → Units → Type 0
Fresh name = All (λ (u : Text × (Text × Text)). same u.0 name ≡ false)

abbrev Distinct : Units → Type 0
Distinct [] = Unit {0}
Distinct (u ∷ units) = Fresh u.0 units × Distinct units

put-units :
    (key : Text) (v : Text × Text) (m : Units)
    → IsUnit (key, v)
    → All IsUnit m
    → All IsUnit (put key v m)
unfolding put
put-units key v [] u h = (u, tt)
put-units key v ((k, w) ∷ m) u h =
    if_split (All IsUnit) (same k key) (λ e. ((h.0.0, u.1), h.1))
      (λ e. (h.0, put-units key v m u h.1))

put-Fresh :
    (name key : Text) (v : Text × Text) (m : Units)
    → same key name ≡ false
    → Fresh name m
    → Fresh name (put key v m)
unfolding put
put-Fresh name key v [] d h = (d, tt)
put-Fresh name key v ((k, w) ∷ m) d h =
    if_both (Fresh name) (same k key) h (h.0, put-Fresh name key v m d h.1)

put-Distinct : (key : Text) (v : Text × Text) (m : Units) → Distinct m → Distinct (put key v m)
unfolding put
put-Distinct key v [] h = (tt, tt)
put-Distinct key v ((k, w) ∷ m) h =
    if_split Distinct (same k key) (λ e. h)
      (λ e. (put-Fresh k key v m (same_sym k key e) h.0, put-Distinct key v m h.1))

-- What the maps hold after the first command
record IsListed (m : Units) : Type 0 where
  units : All IsUnit m
  distinct : Distinct m

add_unit-IsListed : (l : List Text) (m : Units) → IsListed m → IsListed (add_unit l m)
unfolding add_unit
add_unit-IsListed [] m h = h
add_unit-IsListed (a ∷ []) m h = h
add_unit-IsListed (a ∷ b ∷ []) m h = h
add_unit-IsListed (a ∷ b ∷ c ∷ []) m h = h
add_unit-IsListed (a ∷ b ∷ c ∷ d ∷ rest) m h =
    let v : Text × Text = (norm_status (trim_space c), trim_space (join (codes " ") rest)) in
    if_split IsListed (is_service (trim_space a))
      (λ e. record {
        units = put-units (trim_space a) v m (e, norm_status-known (trim_space c)) h.units;
        distinct = put-Distinct (trim_space a) v m h.distinct;
      })
      (λ e. h)

read_units-IsListed : (lines : List Text) (m : Units) → IsListed m → IsListed (read_units lines m)
unfolding read_units
read_units-IsListed [] m h = h
read_units-IsListed (ln ∷ lines) m h =
    read_units-IsListed lines _ (add_unit-IsListed (fields (trim_space ln)) m h)

-- A service with a status that the server knows
pub record IsItem (it : ServiceItem) : Type 0 where
  pub named : is_service it.name ≡ true
  pub known : is_one_of it.status statuses ≡ true

abbrev pub Unlisted : Text → List ServiceItem → Type 0
Unlisted name = All (λ (it : ServiceItem). same it.name name ≡ false)

abbrev pub DistinctNames : List ServiceItem → Type 0
DistinctNames [] = Unit {0}
DistinctNames (it ∷ l) = Unlisted it.name l × DistinctNames l

-- The items in some order: what every one is, and that no two have a name in common
record IsClean (l : List ServiceItem) : Type 0 where
  each : All IsItem l
  apart : DistinctNames l

items-Unlisted :
    (startup : List (Text × Text)) (name : Text) (m : Units)
    → Fresh name m
    → Unlisted name (items startup m)
unfolding items item
items-Unlisted startup name [] h = tt
items-Unlisted startup name (u ∷ m) h = (h.0, items-Unlisted startup name m h.1)

items-IsClean : (startup : List (Text × Text)) (m : Units) → IsListed m → IsClean (items startup m)
unfolding items item
items-IsClean startup [] h = record { each = tt; apart = tt }
items-IsClean startup (u ∷ m) h =
    let w = items-IsClean startup m (record { units = h.units.1; distinct = h.distinct.1 }) in
    record {
      each = (record { named = h.units.0.0; known = h.units.0.1 }, w.each);
      apart = (items-Unlisted startup u.0 m h.distinct.0, w.apart);
    }

insert-each :
    (x : ServiceItem) (l : List ServiceItem)
    → IsItem x
    → All IsItem l
    → All IsItem (insert_item x l)
unfolding insert_item
insert-each x [] p h = (p, tt)
insert-each x (y ∷ l) p h = if_both (All IsItem) (item_lt y x) (h.0, insert-each x l p h.1) (p, h)

insert-Unlisted :
    (name : Text) (x : ServiceItem) (l : List ServiceItem)
    → same x.name name ≡ false
    → Unlisted name l
    → Unlisted name (insert_item x l)
unfolding insert_item
insert-Unlisted name x [] p h = (p, tt)
insert-Unlisted name x (y ∷ l) p h =
    if_both (Unlisted name) (item_lt y x) (h.0, insert-Unlisted name x l p h.1) (p, h)

insert-apart :
    (x : ServiceItem) (l : List ServiceItem)
    → Unlisted x.name l
    → DistinctNames l
    → DistinctNames (insert_item x l)
unfolding insert_item
insert-apart x [] p h = (tt, tt)
insert-apart x (y ∷ l) p h =
    if_both DistinctNames (item_lt y x)
      (insert-Unlisted y.name x l (same_sym y.name x.name p.0) h.0, insert-apart x l p.1 h.1) (p, h)

sort-Unlisted :
    (name : Text) (l : List ServiceItem) → Unlisted name l → Unlisted name (sort_items l)
unfolding sort_items
sort-Unlisted name [] h = tt
sort-Unlisted name (x ∷ l) h = insert-Unlisted name x (sort_items l) h.0 (sort-Unlisted name l h.1)

sort-IsClean : (l : List ServiceItem) → IsClean l → IsClean (sort_items l)
unfolding sort_items
sort-IsClean [] h = h
sort-IsClean (x ∷ l) h =
    let w = sort-IsClean l (record { each = h.each.1; apart = h.apart.1 }) in
    record {
      each = insert-each x (sort_items l) h.each.0 w.each;
      apart = insert-apart x (sort_items l) (sort-Unlisted x.name l h.apart.0) w.apart;
    }

abbrev listed_items : Result (List ServiceItem) → List ServiceItem
listed_items (ok l) = l
listed_items (err e) = []

collect_startup-IsClean :
    (m : Units) (files : Result Text) (l : List ServiceItem)
    → IsListed m
    → collect_startup m files ≡ ok l
    → IsClean l
unfolding collect_startup
collect_startup-IsClean m (err e) l w h = ground arith
collect_startup-IsClean m (ok out) l w h =
    subst IsClean (ap listed_items h)
      (sort-IsClean _ (items-IsClean (read_startup (split b'\n' out) []) m w))

-- Every service that is collected has a name that ends in .service and one of the four known
-- statuses, and no two have the same name.
pub collect-distinct :
    (units files : Result Text) (l : List ServiceItem)
    → collect units files ≡ ok l
    → All IsItem l × DistinctNames l
unfolding collect
collect-distinct (err e) files l h = ground arith
collect-distinct (ok out) files l h =
    let w : IsListed (read_units (split b'\n' out) []) =
      read_units-IsListed (split b'\n' out) [] (record { units = tt; distinct = tt }) in
    let c = collect_startup-IsClean _ files l w h in (c.each, c.apart)
