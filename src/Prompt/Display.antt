-- ===== src/Prompt/Display.antt =====
-- internal/remotesupport/display_linux.go: `ResolveDisplay`. Which files there are is a parameter.
use appcenter_agent_linux.Base.{
  ℤ, pos, negsuc, is_negative, ◌++◌, Bool, true, false, not, ◌&&◌, List, [], ◌∷◌, if◌then◌else◌,
  ltb, Option, none, some, ◌≡◌, refl,
}
use appcenter_agent_linux.Text.{Text, codes, trim_space, is_empty, has_prefix, trim_prefix, itoa_ℤ}
use appcenter_agent_linux.Text.Split.{atoi, last_element}

-- a < b
unfoldable pub lt_ℤ : ℤ → ℤ → Bool
lt_ℤ (pos m) (pos n) = ltb m n
lt_ℤ (pos m) (negsuc n) = false
lt_ℤ (negsuc m) (pos n) = true
lt_ℤ (negsuc m) (negsuc n) = ltb n m

abbrev index_or : Option ℤ → ℤ
index_or none = negsuc 0
index_or (some n) = n

-- xDisplayIndex, of a path that does not end with a slash
unfoldable pub x_display_index : Text → ℤ
unfolding last_element has_prefix trim_prefix atoi
x_display_index path =
    let base = last_element path [] in
    if has_prefix base (codes "X") then index_or (atoi (trim_prefix base (codes "X"))) else negsuc 0

unfoldable pub insert_path : Text → List Text → List Text
unfolding lt_ℤ x_display_index
insert_path p [] = p ∷ []
insert_path p (q ∷ l) =
    let rest = insert_path p l in
    if lt_ℤ (x_display_index q) (x_display_index p) then q ∷ rest else p ∷ q ∷ l

-- sort.Slice; only the index of the last path is used, which the order of equal ones leaves alone.
unfoldable pub sort_paths : List Text → List Text
unfolding insert_path
sort_paths [] = []
sort_paths (p ∷ l) = insert_path p (sort_paths l)

-- The index of the last path; of no path, -1
unfoldable pub last_index : List Text → ℤ
unfolding x_display_index
last_index [] = negsuc 0
last_index (p ∷ []) = x_display_index p
last_index (p ∷ q ∷ l) = last_index (q ∷ l)

abbrev pub or_default : Text → Text
or_default preferred = if is_empty preferred then codes ":0" else preferred

-- displaySocketExists, `exists` being os.Stat without an error
unfoldable pub display_socket_exists : (Text → Bool) → Text → Bool
unfolding trim_space has_prefix trim_prefix
display_socket_exists exists display =
    let d = trim_space display in
    has_prefix d (codes ":") && exists (codes "/tmp/.X11-unix/X" ++ trim_prefix d (codes ":"))

-- ResolveDisplay, with the paths that the pattern /tmp/.X11-unix/X* gives; where there are none the
-- last index is -1, which leads to the same answer.
unfoldable pub resolve_display : (Text → Bool) → List Text → Text → Text
unfolding display_socket_exists last_index sort_paths trim_space itoa_ℤ
resolve_display exists paths preferred =
    let p = trim_space preferred in
    let idx = last_index (sort_paths paths) in
    if not (is_empty p) && display_socket_exists exists p
    then p
    else if is_negative idx
    then or_default p
    else codes ":" ++ itoa_ℤ idx

two_displays :
    resolve_display (λ p. false) (codes "/tmp/.X11-unix/X10" ∷ codes "/tmp/.X11-unix/X9" ∷ []) []
    ≡ codes ":10"
unfolding resolve_display last_element has_prefix trim_prefix atoi x_display_index trim_space
two_displays = refl
