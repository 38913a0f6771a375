-- ===== src/Text/Split.antt =====
-- More of package `strings` and of `strconv`: the functions by which the agent takes the output of
-- commands and files apart.
use appcenter_agent_linux.Base.{
  ℕ, zero, suc, ◌+◌, ◌-◌, ◌*◌, ◌++◌, ℤ, pos, negsuc, Bool, true, false, ◌&&◌, List, [], ◌∷◌,
  if◌then◌else◌, Option, none, some, leb, take, ◌==◌, ◌≡◌, refl,
}
use appcenter_agent_linux.Text.{Text, codes, is_space, has_suffix, count}

-- A character in front of the words of the text behind it. `fresh` says that a space, or nothing,
-- follows the character.
abbrev pub put_word : ℕ → Bool → List Text → List Text
put_word c true words = (c ∷ []) ∷ words
put_word c false [] = (c ∷ []) ∷ []
put_word c false (w ∷ words) = (c ∷ w) ∷ words

abbrev pub starts_blank : Text → Bool
starts_blank [] = true
starts_blank (c ∷ s) = is_space c

-- strings.Fields
unfoldable pub fields : Text → List Text
unfolding is_space
fields [] = []
fields (c ∷ s) =
    let rest = fields s in if is_space c then rest else put_word c (starts_blank s) rest

-- A character in front of the first part
abbrev pub put_part : ℕ → List Text → List Text
put_part c [] = (c ∷ []) ∷ []
put_part c (p ∷ parts) = (c ∷ p) ∷ parts

-- strings.Split(s, sep) for a separator of one character
unfoldable pub split : ℕ → Text → List Text
split sep [] = [] ∷ []
split sep (c ∷ s) = let rest = split sep s in if c == sep then [] ∷ rest else put_part c rest

-- strings.Join(parts, sep)
unfoldable pub join : Text → List Text → Text
join sep [] = []
join sep (p ∷ []) = p
join sep (p ∷ q ∷ parts) = p ++ (sep ++ join sep (q ∷ parts))

abbrev pub before_cut : ℕ → Option (Text × Text) → Option (Text × Text)
before_cut c none = none
before_cut c (some (k, v)) = some (c ∷ k, v)

-- strings.SplitN(s, sep, 2) where it gives two parts: those before and behind the first separator
unfoldable pub cut : ℕ → Text → Option (Text × Text)
cut sep [] = none
cut sep (c ∷ s) = let rest = cut sep s in if c == sep then some ([], s) else before_cut c rest

unfoldable pub trim_left_char : ℕ → Text → Text
trim_left_char x [] = []
trim_left_char x (c ∷ s) = let rest = trim_left_char x s in if c == x then rest else c ∷ s

-- A character in front of a text whose end is trimmed of `x`
abbrev pub put_front_char : ℕ → ℕ → Text → Text
put_front_char x c [] = if c == x then [] else c ∷ []
put_front_char x c (d ∷ s) = c ∷ d ∷ s

unfoldable pub trim_right_char : ℕ → Text → Text
trim_right_char x [] = []
trim_right_char x (c ∷ s) = put_front_char x c (trim_right_char x s)

-- strings.Trim(s, cutset) for a cutset of one character
unfoldable pub trim_char : ℕ → Text → Text
unfolding trim_left_char trim_right_char
trim_char x s = trim_left_char x (trim_right_char x s)

abbrev pub is_digit : ℕ → Bool
is_digit c = leb b'0' c && leb c b'9'

-- The value of a text of digits behind digits of value `n`
unfoldable pub parse_digits : ℕ → Text → Option ℕ
parse_digits n [] = some n
parse_digits n (c ∷ s) =
    let rest = parse_digits (n * 10 + (c - b'0')) s in if is_digit c then rest else none

-- A number with at least one digit
unfoldable pub parse_nat : Text → Option ℕ
unfolding parse_digits
parse_nat [] = none
parse_nat (c ∷ s) = parse_digits 0 (c ∷ s)

abbrev pub negated : Option ℕ → Option ℤ
negated none = none
negated (some zero) = some (pos 0)
negated (some (suc n)) = some (negsuc n)

abbrev pub positive : Option ℕ → Option ℤ
positive none = none
positive (some n) = some (pos n)

-- strconv.Atoi, for a number that fits 64 bits; `none` is the error.
unfoldable pub atoi : Text → Option ℤ
unfolding parse_nat
atoi [] = none
atoi (c ∷ s) =
    if c == b'-'
    then negated (parse_nat s)
    else if c == b'+'
    then positive (parse_nat s)
    else positive (parse_nat (c ∷ s))

-- filepath.Base of a path with no `/` at its end: what follows the last `/`
unfoldable pub last_element : Text → Text → Text
last_element [] found = found
last_element (c ∷ s) found = last_element s (if c == b'/' then [] else found ++ c ∷ [])

-- strings.TrimSuffix(s, p)
unfoldable pub trim_suffix : Text → Text → Text
unfolding has_suffix
trim_suffix s p = if has_suffix s p then take (count s - count p) s else s

split_tabs : split b'\t' (codes "a\tb\t") ≡ codes "a" ∷ codes "b" ∷ [] ∷ []
unfolding split
split_tabs = refl

cut_once : cut b'=' (codes "ID=a=b") ≡ some (codes "ID", codes "a=b")
unfolding cut
cut_once = refl

number : atoi (codes "-120") ≡ some (negsuc 119)
unfolding atoi
number = refl
