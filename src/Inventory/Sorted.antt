-- ===== src/Inventory/Sorted.antt =====
-- internal/inventory/inventory.go: the order of the package list.
use appcenter_agent_linux.Base.{
  ◌++◌, ◌≡◌, ap, sym, true, false, ◌||◌, List, [], ◌∷◌, inl, inr, arith, Bool-cases,
}
use appcenter_agent_linux.Text.Laws.{same-eq, same_refl}
use appcenter_agent_linux.Text.Order.{text_lt_irrefl, text_lt_asym, text_lt_connex, text_lt_weak}
use appcenter_agent_linux.Inventory.{SoftwareItem, item_lt, insert_item, sort_items}

pub item_lt-asym : (a b : SoftwareItem) → item_lt a b ≡ true → item_lt b a ≡ false
unfolding item_lt
item_lt-asym a b h = ground (
  arith,
  same-eq a.name b.name,
  same-eq b.name a.name,
  same_refl a.name,
  text_lt_asym a.name b.name,
  text_lt_asym a.version b.version,
)

pub item_lt-weak :
    (z y x : SoftwareItem) → item_lt z x ≡ true → item_lt z y ≡ false → item_lt y x ≡ true
unfolding item_lt
item_lt-weak z y x h k = ground (
  arith,
  text_lt_weak z.name y.name x.name,
  text_lt_weak z.version y.version x.version,
  same-eq z.name y.name,
  same-eq z.name x.name,
  same-eq y.name x.name,
  same_refl y.name,
  text_lt_connex z.name y.name,
  text_lt_irrefl y.name,
)

-- Two items go in in either order when one is below the other.
insert_item_comm :
    (x y : SoftwareItem) (l : List SoftwareItem)
    → item_lt x y ≡ true
    → insert_item x (insert_item y l) ≡ insert_item y (insert_item x l)
unfolding insert_item
insert_item_comm x y [] h = ground (arith, item_lt-asym x y)
insert_item_comm x y (z ∷ l) h = ground (
  arith,
  item_lt-asym x y,
  insert_item_comm x y l,
  item_lt-weak z x y,
  item_lt-weak x z y,
  item_lt-weak z y x,
  item_lt-asym z x,
  item_lt-asym z y,
  item_lt-asym y z,
  item_lt-asym x z,
)

sort_items-append :
    (xs ys zs : List SoftwareItem)
    → sort_items ys ≡ sort_items zs
    → sort_items (xs ++ ys) ≡ sort_items (xs ++ zs)
unfolding sort_items
sort_items-append [] ys zs e = e
sort_items-append (x ∷ xs) ys zs e = ap (insert_item x) (sort_items-append xs ys zs e)

either_order :
    (x y : SoftwareItem) (l : List SoftwareItem)
    → (item_lt x y || item_lt y x) ≡ true
    → insert_item x (insert_item y l) ≡ insert_item y (insert_item x l)
either_order x y l h = elim (Bool-cases (item_lt x y)) [
  | inl e ↦ insert_item_comm x y l e
  | inr e ↦ sym (insert_item_comm y x l (ground arith))
]

swapped :
    (x y : SoftwareItem) (ys : List SoftwareItem)
    → (item_lt x y || item_lt y x) ≡ true
    → sort_items (x ∷ y ∷ ys) ≡ sort_items (y ∷ x ∷ ys)
unfolding sort_items
swapped x y ys h = either_order x y (sort_items ys) h

-- The list does not depend on the order of two neighbouring packages that differ in name or version.
pub sort_items-swap :
    (xs : List SoftwareItem) (x y : SoftwareItem) (ys : List SoftwareItem)
    → (item_lt x y || item_lt y x) ≡ true
    → sort_items (xs ++ x ∷ y ∷ ys) ≡ sort_items (xs ++ y ∷ x ∷ ys)
sort_items-swap xs x y ys h = sort_items-append xs (x ∷ y ∷ ys) (y ∷ x ∷ ys) (swapped x y ys h)
