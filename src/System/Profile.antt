-- ===== src/System/Profile.antt =====
-- internal/system/profile.go: the physical cores, the disks and the virtualization of the host.
use appcenter_agent_linux.Base.{
  ℕ, suc, ◌++◌, ◌*◌, ◌/◌, ℤ, pos_part, Bool, true, false, ◌||◌, List, [], ◌∷◌, length,
  if◌then◌else◌, Option, none, some, ltb, ◌≡◌, refl,
}
use appcenter_agent_linux.Text.{Text, codes, trim_space, to_lower, is_empty, same}
use appcenter_agent_linux.Text.Split.{split, cut, fields, join, atoi}
use appcenter_agent_linux.Services.{is_one_of}

-- readDMIValue
unfoldable pub read_dmi_value : Option Text → Text
unfolding trim_space
read_dmi_value none = []
read_dmi_value (some s) = trim_space s

-- The loop of readPhysicalCores: the keys seen, and the ids of the processor that is read
pub record Cores : Type 0 where
  pub seen : List Text
  pub physical_id : Text
  pub core_id : Text

unfoldable pub flush : Cores → List Text
unfolding is_one_of
flush c =
    let key = c.physical_id ++ (codes ":" ++ c.core_id) in
    if is_empty c.physical_id || (is_empty c.core_id || is_one_of key c.seen)
    then c.seen
    else key ∷ c.seen

unfoldable pub set_core : Option (Text × Text) → Cores → Cores
unfolding trim_space to_lower same
set_core none c = c
set_core (some (k, v)) c =
    let key = trim_space (to_lower k) in
    if same key (codes "physical id")
    then record c { physical_id = trim_space v }
    else if same key (codes "core id")
    then record c { core_id = trim_space v }
    else c

unfoldable pub core_line : Text → Cores → Cores
unfolding flush set_core cut trim_space
core_line ln c =
    let line = trim_space ln in
    if is_empty line
    then record { seen = flush c; physical_id = []; core_id = [] }
    else set_core (cut b':' line) c

unfoldable pub core_lines : List Text → Cores → Cores
unfolding core_line
core_lines [] c = c
core_lines (ln ∷ lines) c = core_lines lines (core_line ln c)

-- readPhysicalCores, with runtime.NumCPU()
unfoldable pub read_physical_cores : ℕ → Option (List Text) → ℕ
unfolding core_lines flush
read_physical_cores cpus none = 0
read_physical_cores cpus (some lines) =
    let n =
      length (flush (core_lines lines (record { seen = []; physical_id = []; core_id = [] }))) in
    if ltb 0 n then n else cpus

pub record SystemDisk : Type 0 where
  pub index : ℕ
  pub size_gb : ℕ
  pub model : Text
  pub bus_type : Text

-- The words before the last two, and these
unfoldable pub last_two : List Text → Option (List Text × (Text × Text))
last_two [] = none
last_two (a ∷ []) = none
last_two (a ∷ b ∷ []) = some ([], (a, b))
last_two (a ∷ b ∷ c ∷ l) = elim (last_two (b ∷ c ∷ l)) [
  | none ↦ none
  | some (front, ends) ↦ some (a ∷ front, ends)
]

abbrev pub bytes_of : Option ℤ → ℕ
bytes_of none = 0
bytes_of (some n) = pos_part n

-- The disk of a line, where its last but one word is `disk`
unfoldable pub disk_of : ℕ → Text → Text → Option (List Text × (Text × Text)) → Option SystemDisk
unfolding join trim_space atoi same
disk_of idx name size none = none
disk_of idx name size (some (words, (dtype, tran))) =
    let model = trim_space (join (codes " ") words) in
    if same dtype (codes "disk")
    then some (record {
      index = idx;
      size_gb = bytes_of (atoi size) / (1024 * 1024 * 1024);
      model = if is_empty model then name else model;
      bus_type = tran;
    })
    else none

unfoldable pub disk_line : ℕ → List Text → Option SystemDisk
unfolding disk_of last_two
disk_line idx (name ∷ size ∷ rest) = disk_of idx name size (last_two rest)
disk_line idx _ = none

abbrev pub next_index : ℕ → Option SystemDisk → ℕ
next_index idx none = idx
next_index idx (some d) = suc idx

abbrev pub add_disk : Option SystemDisk → List SystemDisk → List SystemDisk
add_disk none l = l
add_disk (some d) l = d ∷ l

unfoldable pub disk_lines : List Text → ℕ → List SystemDisk
unfolding disk_line fields trim_space
disk_lines [] idx = []
disk_lines (ln ∷ lines) idx =
    let o = disk_line idx (fields (trim_space ln)) in
    add_disk o (disk_lines lines (next_index idx o))

-- readDisks, with what lsblk prints
unfoldable pub read_disks : Option Text → List SystemDisk
unfolding disk_lines split trim_space
read_disks none = []
read_disks (some out) = disk_lines (split b'\n' (trim_space out)) 0

pub record VirtualizationInfo : Type 0 where
  pub is_virtual : Bool
  pub vendor : Text
  pub model : Text

-- detectVirtualization, with what systemd-detect-virt prints
unfoldable pub detect_virtualization : Option Text → VirtualizationInfo
unfolding trim_space same
detect_virtualization none = record { is_virtual = false; vendor = []; model = [] }
detect_virtualization (some out) =
    let v = trim_space out in
    if is_empty v || same v (codes "none")
    then record { is_virtual = false; vendor = []; model = [] }
    else record { is_virtual = true; vendor = v; model = v }

one_disk :
    read_disks
      (some (codes "sda 1073741824 Fast One disk sata\nsr0 1 x rom sata\nvda 1073741824 disk\n"))
    ≡ record { index = 0; size_gb = 1; model = codes "Fast One"; bus_type = codes "sata" } ∷ []
unfolding read_disks trim_space
one_disk = refl
