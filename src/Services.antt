-- ===== src/Services.antt =====
-- internal/services/collector.go: the list of systemd services and its hash; `ServiceItem` of
-- internal/api/client.go. systemctl and SHA-256 are parameters. A Go map is a list of its entries,
-- with each key once.
pub mod Listed
use appcenter_agent_linux.Base.{
  ℕ, ◌++◌, Bool, true, false, not, ◌&&◌, ◌||◌, List, [], ◌∷◌, if◌then◌else◌, Option, none, some,
  ◌≡◌, refl,
}
use appcenter_agent_linux.Text.{
  Text, codes, trim_space, to_lower, is_empty, same, is_space, has_prefix, has_suffix,
}
use appcenter_agent_linux.Text.Split.{split, fields, join, trim_suffix}
use appcenter_agent_linux.Text.Order.{text_lt}
use appcenter_agent_linux.Api.{Error, Result, ok, err}

pub record ServiceItem : Type 0 where
  pub name : Text
  pub display_name : Text
  pub status : Text
  pub startup_type : Text
  pub description : Text

-- Whether one of the names is this text
unfoldable pub is_one_of : Text → List Text → Bool
unfolding same
is_one_of s [] = false
is_one_of s (n ∷ names) = same s n || is_one_of s names

unfoldable pub norm_status : Text → Text
unfolding is_one_of trim_space to_lower
norm_status v =
    let s = to_lower (trim_space v) in
    if is_one_of s (codes "active" ∷ codes "activating" ∷ [])
    then codes "running"
    else if is_one_of s (codes "inactive" ∷ codes "deactivating" ∷ [])
    then codes "stopped"
    else if is_one_of s (codes "failed" ∷ [])
    then codes "failed"
    else codes "unknown"

unfoldable pub norm_startup : Text → Text
unfolding is_one_of trim_space to_lower
norm_startup v =
    let s = to_lower (trim_space v) in
    if is_one_of s (codes "enabled" ∷ codes "enabled-runtime" ∷ [])
    then codes "auto"
    else if is_one_of s (codes "disabled" ∷ codes "masked" ∷ [])
    then codes "disabled"
    else if is_one_of s (codes "static" ∷ codes "indirect" ∷ codes "generated" ∷ [])
    then codes "manual"
    else codes "unknown"

-- m[key] = v
unfoldable pub put {ℓ} : {A : Type ℓ} → Text → A → List (Text × A) → List (Text × A)
unfolding same
put key v [] = (key, v) ∷ []
put key v ((k, w) ∷ m) = let rest = put key v m in if same k key then (k, v) ∷ m else (k, w) ∷ rest

-- m[key]; the empty text where the key is missing
unfoldable pub text_at : Text → List (Text × Text) → Text
unfolding same
text_at key [] = []
text_at key ((k, v) ∷ m) = if same k key then v else text_at key m

-- A name that the loops let through
abbrev pub is_service : Text → Bool
is_service name = not (is_empty name) && has_suffix name (codes ".service")

-- unitState and unitDesc, by name
abbrev pub Units : Type 0
Units = List (Text × (Text × Text))

-- One round of the first loop, with the fields of the line
unfoldable pub add_unit : List Text → Units → Units
unfolding norm_status put join trim_space has_suffix
add_unit (a ∷ b ∷ c ∷ d ∷ rest) units =
    let name = trim_space a in
    if is_service name
    then put name (norm_status (trim_space c), trim_space (join (codes " ") rest)) units
    else units
add_unit _ units = units

unfoldable pub read_units : List Text → Units → Units
unfolding add_unit
read_units [] units = units
read_units (ln ∷ lines) units = read_units lines (add_unit (fields (trim_space ln)) units)

-- One round of the second loop, with the fields of the line
unfoldable pub add_startup : List Text → List (Text × Text) → List (Text × Text)
unfolding norm_startup put trim_space has_suffix
add_startup (a ∷ b ∷ rest) startup =
    let name = trim_space a in
    if is_service name then put name (norm_startup b) startup else startup
add_startup _ startup = startup

unfoldable pub read_startup : List Text → List (Text × Text) → List (Text × Text)
unfolding add_startup has_prefix
read_startup [] startup = startup
read_startup (ln ∷ lines) startup =
    let line = trim_space ln in
    read_startup lines
      (if has_prefix line (codes "UNIT FILE") then startup else add_startup (fields line) startup)

-- The item of an entry
unfoldable pub item : List (Text × Text) → Text × (Text × Text) → ServiceItem
unfolding text_at trim_suffix
item startup (name, (status, description)) = record {
  name = name;
  display_name = trim_suffix name (codes ".service");
  status = status;
  startup_type = text_at name startup;
  description = description;
}

unfoldable pub items : List (Text × Text) → Units → List ServiceItem
unfolding item
items startup [] = []
items startup (u ∷ units) = item startup u ∷ items startup units

unfoldable pub item_lt : ServiceItem → ServiceItem → Bool
unfolding text_lt to_lower
item_lt a b = text_lt (to_lower a.name) (to_lower b.name)

unfoldable pub insert_item : ServiceItem → List ServiceItem → List ServiceItem
insert_item x [] = x ∷ []
insert_item x (y ∷ ys) = let rest = insert_item x ys in if item_lt y x then y ∷ rest else x ∷ y ∷ ys

-- sort.Slice. Go leaves the order of names that differ in case only open.
unfoldable pub sort_items : List ServiceItem → List ServiceItem
unfolding insert_item
sort_items [] = []
sort_items (x ∷ xs) = insert_item x (sort_items xs)

-- Collect after the first command, with the units that it lists
unfoldable pub collect_startup : Units → Result Text → Result (List ServiceItem)
unfolding items sort_items read_startup split
collect_startup units (err e) = err e
collect_startup units (ok out) = ok (sort_items (items (read_startup (split b'\n' out) []) units))

-- Collect, with what the two commands print
unfoldable pub collect : Result Text → Result Text → Result (List ServiceItem)
unfolding collect_startup read_units split
collect (err e) unit_files = err e
collect (ok out) unit_files = collect_startup (read_units (split b'\n' out) []) unit_files

-- What `Hash` hashes
unfoldable pub content : List ServiceItem → Text
content [] = []
content (it ∷ l) = it.name ++ (0 ∷ (it.status ++ (0 ∷ (it.startup_type ++ (b'\n' ∷ content l)))))

-- Hash, with SHA-256 in hexadecimal
unfoldable pub hash : (Text → Text) → List ServiceItem → Text
unfolding content
hash sha l = sha (content l)

two_services :
    collect
      (ok (codes "ssh.service loaded active running Secure shell\nX.mount loaded active mounted\n"))
      (ok (codes "UNIT FILE STATE\nssh.service enabled\n"))
    ≡ ok (
        record {
          name = codes "ssh.service";
          display_name = codes "ssh";
          status = codes "running";
          startup_type = codes "auto";
          description = codes "Secure shell";
        }
        ∷ [])
unfolding collect trim_space has_suffix fields
two_services = refl
