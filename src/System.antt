-- ===== src/System.antt =====
-- internal/system/info.go: the host information that the agent reads from files and from the output of
-- `who`. The files and commands are parameters; `none` is one that cannot be read, and a file is the
-- list of its lines.
pub mod Profile
pub mod Numbered
use appcenter_agent_linux.Base.{
  ℕ, ◌++◌, ◌*◌, ◌/◌, ℤ, is_positive, pos_part, Bool, true, false, not, ◌&&◌, ◌||◌, List, [], ◌∷◌,
  if◌then◌else◌, Option, none, some, ltb, ◌≡◌, refl,
}
use appcenter_agent_linux.Text.{
  Text, codes, trim_space, to_lower, is_empty, same, has_prefix, equal_fold, itoa,
}
use appcenter_agent_linux.Text.Split.{split, cut, fields, trim_char, atoi}
use appcenter_agent_linux.Services.{is_one_of}

pub record OsReleaseInfo : Type 0 where
  pub pretty_name : Text
  pub id : Text
  pub version_id : Text

abbrev pub no_release : OsReleaseInfo
no_release = record { pretty_name = []; id = []; version_id = [] }

-- What a key of /etc/os-release sets
unfoldable pub set_release : Option (Text × Text) → OsReleaseInfo → OsReleaseInfo
unfolding trim_char to_lower same
set_release none r = r
set_release (some (k, w)) r =
    let v = trim_char b'"' w in
    if same k (codes "PRETTY_NAME")
    then record r { pretty_name = v }
    else if same k (codes "ID")
    then record r { id = to_lower v }
    else if same k (codes "VERSION_ID")
    then record r { version_id = v }
    else r

unfoldable pub read_release_lines : List Text → OsReleaseInfo → OsReleaseInfo
unfolding set_release cut has_prefix trim_space
read_release_lines [] r = r
read_release_lines (ln ∷ lines) r =
    let line = trim_space ln in
    read_release_lines lines
      (if is_empty line || has_prefix line (codes "#") then r else set_release (cut b'=' line) r)

-- readOSRelease
unfoldable pub read_os_release : Option (List Text) → OsReleaseInfo
unfolding read_release_lines
read_os_release none = no_release
read_os_release (some lines) = read_release_lines lines no_release

abbrev pub value_of : Option (Text × Text) → Option Text
value_of none = none
value_of (some (k, v)) = some (trim_space v)

abbrev pub or_next : Option Text → Text → Text
or_next none s = s
or_next (some v) s = v

unfoldable pub find_cpu_model : List Text → Text
unfolding cut has_prefix to_lower
find_cpu_model [] = []
find_cpu_model (ln ∷ lines) =
    let rest = find_cpu_model lines in
    if has_prefix (to_lower ln) (codes "model name")
    then or_next (value_of (cut b':' ln)) rest
    else rest

-- readFirstCPUModel
unfoldable pub read_first_cpu_model : Option (List Text) → Text
unfolding find_cpu_model
read_first_cpu_model none = []
read_first_cpu_model (some lines) = find_cpu_model lines

abbrev pub kilobytes : Option ℤ → ℕ
kilobytes none = 0
kilobytes (some n) = pos_part n

-- The size in a line of /proc/meminfo, in kilobytes
unfoldable pub memory_of : List Text → ℕ
unfolding atoi
memory_of (a ∷ b ∷ rest) = kilobytes (atoi b)
memory_of _ = 0

unfoldable pub find_memory : List Text → ℕ
unfolding memory_of fields has_prefix
find_memory [] = 0
find_memory (ln ∷ lines) =
    let rest = find_memory lines in
    let kb = memory_of (fields ln) in
    if has_prefix ln (codes "MemTotal:") && ltb 0 kb then kb / (1024 * 1024) else rest

-- readMemTotalGB
unfoldable pub read_mem_total_gb : Option (List Text) → ℕ
unfolding find_memory
read_mem_total_gb none = 0
read_mem_total_gb (some lines) = find_memory lines

-- readDiskFreeGB, with the free blocks and the size of a block, whose product is taken to fit 64 bits
unfoldable pub read_disk_free_gb : Option (ℕ × ℕ) → ℕ
read_disk_free_gb none = 0
read_disk_free_gb (some (blocks, size)) = blocks * size / (1024 * 1024 * 1024)

-- An address of an interface: whether it is an IPv4 address that is no loopback, and its text
pub record Address : Type 0 where
  pub is_public : Bool
  pub text : Text

-- An interface: whether it is up, whether it is a loopback, and its addresses where these are known
pub record Interface : Type 0 where
  pub is_up : Bool
  pub is_loopback : Bool
  pub addresses : List Address

unfoldable pub add_addresses : List Address → List Text → List Text
unfolding is_one_of
add_addresses [] out = out
add_addresses (a ∷ l) out =
    add_addresses l (if a.is_public && not (is_one_of a.text out) then out ++ a.text ∷ [] else out)

unfoldable pub add_interfaces : List Interface → List Text → List Text
unfolding add_addresses
add_interfaces [] out = out
add_interfaces (i ∷ l) out =
    add_interfaces l (if i.is_up && not i.is_loopback then add_addresses i.addresses out else out)

-- allNonLoopbackIPv4
unfoldable pub all_non_loopback_ipv4 : Option (List Interface) → List Text
unfolding add_interfaces
all_non_loopback_ipv4 none = []
all_non_loopback_ipv4 (some l) = add_interfaces l []

unfoldable pub normalize_arch : Text → Text
unfolding is_one_of to_lower
normalize_arch arch =
    let a = to_lower arch in
    if is_one_of a (codes "x86_64" ∷ codes "amd64" ∷ [])
    then codes "amd64"
    else if is_one_of a (codes "aarch64" ∷ codes "arm64" ∷ [])
    then codes "arm64"
    else arch

-- The user of a line of `who`
unfoldable pub who_user : List Text → Option Text
unfolding equal_fold trim_space
who_user [] = none
who_user (a ∷ rest) =
    let user = trim_space a in
    if is_empty user || equal_fold user (codes "reboot") then none else some user

unfoldable pub first_user : List Text → Text
unfolding who_user fields trim_space
first_user [] = []
first_user (ln ∷ lines) = or_next (who_user (fields (trim_space ln))) (first_user lines)

-- parseWhoOutput
unfoldable pub parse_who_output : Text → Text
unfolding first_user split
parse_who_output out = first_user (split b'\n' out)

-- currentLoggedInUser
unfoldable pub current_logged_in_user : Option Text → Text
unfolding parse_who_output
current_logged_in_user none = []
current_logged_in_user (some out) = parse_who_output out

-- CurrentOSUser, with the variable USER and the user id
unfoldable pub current_os_user : Option Text → Text → ℕ → Text
unfolding current_logged_in_user itoa
current_os_user who user uid =
    let u = current_logged_in_user who in
    if not (is_empty u) then u else if not (is_empty user) then user else codes "uid:" ++ itoa uid

who_lines : parse_who_output (codes "reboot ~\n anna tty1\n") ≡ codes "anna"
unfolding parse_who_output trim_space equal_fold
who_lines = refl
