-- ===== src/Inventory/Content.antt =====
-- internal/inventory/inventory.go: what `Hash` hashes.
use appcenter_agent_linux.Base.{
  ℕ, ◌++◌, ◌≡◌, ◌≢◌, refl, ap, ◌∙◌, sym, false, List, [], ◌∷◌, All, ◌==◌, arith, append_assoc,
}
use appcenter_agent_linux.Text.{Text}
use appcenter_agent_linux.Inventory.{SoftwareItem, item_content, content}

-- That a text has no character `x`.
abbrev pub Lacks : ℕ → Text → Type 0
Lacks x [] = Unit {0}
Lacks x (c ∷ s) = ((c == x) ≡ false) × Lacks x s

-- Two texts that end at their first `x` are read back.
read_to :
    (x : ℕ) (s t r q : Text)
    → Lacks x s
    → Lacks x t
    → (s ++ x ∷ r) ≡ (t ++ x ∷ q)
    → (s ≡ t) × (r ≡ q)
read_to x [] [] r q h k e = ground arith
read_to x [] (d ∷ t) r q h k e = ground arith
read_to x (c ∷ s) [] r q h k e = ground arith
read_to x (c ∷ s) (d ∷ t) r q h k e = ground (arith, read_to x s t r q)

-- That a package is one that dpkg-query can print: no field has a NUL, and no architecture a newline.
pub record IsPrintable (it : SoftwareItem) : Type 0 where
  pub plain_name : Lacks 0 it.name
  pub plain_version : Lacks 0 it.version
  pub plain_architecture : Lacks b'\n' it.architecture

item_content-append :
    (i : SoftwareItem) (s : Text)
    → (item_content i ++ s) ≡ (i.name ++ 0 ∷ (i.version ++ 0 ∷ (i.architecture ++ b'\n' ∷ s)))
unfolding item_content
item_content-append i s =
    append_assoc i.name _ s
    ∙ ap (λ (r : Text). i.name ++ (0 ∷ r))
        (append_assoc i.version _ s
          ∙ ap (λ (r : Text). i.version ++ (0 ∷ r)) (append_assoc i.architecture (b'\n' ∷ []) s))

item_content-inj :
    (i j : SoftwareItem) (s t : Text)
    → IsPrintable i
    → IsPrintable j
    → (item_content i ++ s) ≡ (item_content j ++ t)
    → (i ≡ j) × (s ≡ t)
item_content-inj i j s t p q e =
    let f = sym (item_content-append i s) ∙ e ∙ item_content-append j t in
    let (n, f1) = read_to 0 i.name j.name _ _ p.plain_name q.plain_name f in
    let (v, f2) = read_to 0 i.version j.version _ _ p.plain_version q.plain_version f1 in
    let (a, f3) =
      read_to b'\n' i.architecture j.architecture s t p.plain_architecture q.plain_architecture
        f2 in
    (λ k. record { name = n k; version = v k; architecture = a k }, f3)

item_content-nonempty : (i : SoftwareItem) (s : Text) → [] ≢ (item_content i ++ s)
unfolding item_content
item_content-nonempty i s h = go i.name _ (h ∙ item_content-append i s)
  where
    go : (n r : Text) → [] ≡ (n ++ 0 ∷ r) → ⊥
    go [] r e = ground arith
    go (c ∷ n) r e = ground arith

-- Two package lists with the same content to hash are the same, where no name or version has a NUL
-- and no architecture a newline.
pub content-inj :
    (l m : List SoftwareItem)
    → All IsPrintable l
    → All IsPrintable m
    → content l ≡ content m
    → l ≡ m
unfolding content
content-inj [] [] p q e = refl
content-inj [] (j ∷ m) p q e = elim (item_content-nonempty j (content m) e) [ ]
content-inj (i ∷ l) [] p q e = elim (item_content-nonempty i (content l) (sym e)) [ ]
content-inj (i ∷ l) (j ∷ m) p q e =
    let (h, t) = item_content-inj i j (content l) (content m) p.0 q.0 e in
    let r = content-inj l m p.1 q.1 t in λ k. h k ∷ r k
