-- ===== src/Inventory.antt =====
-- internal/inventory/inventory.go: the package list of dpkg-query and its hash; `SoftwareItem` and
-- `InventoryRequest` of internal/api/client.go. dpkg-query and SHA-256 are parameters. The fields of
-- an item that the agent never fills are left out.
pub mod Sync
pub mod Sorted
pub mod Content
pub mod Known
use appcenter_agent_linux.Base.{
  ℕ, ◌++◌, Bool, true, false, List, [], ◌∷◌, if◌then◌else◌, Option, none, some, ◌≡◌, refl,
}
use appcenter_agent_linux.Text.{Text, codes, trim_space, is_empty, same, is_space}
use appcenter_agent_linux.Text.Split.{split}
use appcenter_agent_linux.Text.Order.{text_lt}
use appcenter_agent_linux.Api.{Error, message, error_text, Result, ok, err}

pub record SoftwareItem : Type 0 where
  pub name : Text
  pub version : Text
  pub architecture : Text

-- parts[i], or the empty text where there are not so many, trimmed
unfoldable pub second_part : List Text → Text
second_part (a ∷ b ∷ parts) = trim_space b
second_part _ = []

unfoldable pub third_part : List Text → Text
third_part (a ∷ b ∷ c ∷ parts) = trim_space c
third_part _ = []

unfoldable pub first_part : List Text → Text
first_part [] = []
first_part (a ∷ parts) = trim_space a

-- The item of the parts of a line; a line without a name has none.
unfoldable pub parts_item : List Text → Option SoftwareItem
unfolding first_part second_part third_part
parts_item parts =
    if is_empty (first_part parts)
    then none
    else some (record {
      name = first_part parts;
      version = second_part parts;
      architecture = third_part parts;
    })

-- One round of the loop over the lines
unfoldable pub line_item : Text → Option SoftwareItem
unfolding parts_item split
line_item ln = if is_empty (trim_space ln) then none else parts_item (split b'\t' (trim_space ln))

abbrev pub add_item : Option SoftwareItem → List SoftwareItem → List SoftwareItem
add_item none items = items
add_item (some x) items = x ∷ items

unfoldable pub line_items : List Text → List SoftwareItem
unfolding line_item
line_items [] = []
line_items (ln ∷ lines) = add_item (line_item ln) (line_items lines)

-- The order of `sort.Slice`: by name, and by version where the names agree
unfoldable pub item_lt : SoftwareItem → SoftwareItem → Bool
unfolding text_lt same
item_lt a b = if same a.name b.name then text_lt a.version b.version else text_lt a.name b.name

unfoldable pub insert_item : SoftwareItem → List SoftwareItem → List SoftwareItem
insert_item x [] = x ∷ []
insert_item x (y ∷ ys) = let rest = insert_item x ys in if item_lt y x then y ∷ rest else x ∷ y ∷ ys

-- sort.Slice. Go leaves the order of items with the same name and version open.
unfoldable pub sort_items : List SoftwareItem → List SoftwareItem
unfolding insert_item
sort_items [] = []
sort_items (x ∷ xs) = insert_item x (sort_items xs)

-- Collect, with what dpkg-query prints
unfoldable pub collect : Result Text → Result (List SoftwareItem)
unfolding line_items sort_items
collect (err e) = err (message (codes "dpkg-query failed: " ++ error_text e))
collect (ok out) = ok (sort_items (line_items (split b'\n' (trim_space out))))

-- What `Hash` writes for an item
unfoldable pub item_content : SoftwareItem → Text
item_content it = it.name ++ (0 ∷ (it.version ++ (0 ∷ (it.architecture ++ b'\n' ∷ []))))

-- What `Hash` hashes
unfoldable pub content : List SoftwareItem → Text
unfolding item_content
content [] = []
content (it ∷ items) = item_content it ++ content items

-- Hash, with SHA-256 in hexadecimal
unfoldable pub hash : (Text → Text) → List SoftwareItem → Text
unfolding content
hash sha items = sha (content items)

two_packages :
    collect (ok (codes "zsh\t5.9\tamd64\n\nbash\t5.2\n"))
    ≡ ok (
        record { name = codes "bash"; version = codes "5.2"; architecture = [] }
        ∷ record { name = codes "zsh"; version = codes "5.9"; architecture = codes "amd64" }
        ∷ [])
unfolding collect trim_space item_lt
two_packages = refl
