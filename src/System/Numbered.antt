-- ===== src/System/Numbered.antt =====
-- internal/system/profile.go: the numbers of the disks.
use appcenter_agent_linux.Base.{ℕ, suc, List, [], ◌∷◌, Option, none, some, ◌≡◌, refl, if_both}
use appcenter_agent_linux.Text.{Text, codes, trim_space, same}
use appcenter_agent_linux.Text.Split.{split, fields}
use appcenter_agent_linux.System.Profile.{
  SystemDisk, disk_of, disk_line, next_index, add_disk, disk_lines, read_disks, last_two,
}

-- The indices count up from `n`.
abbrev pub NumberedFrom : ℕ → List SystemDisk → Type 0
NumberedFrom n [] = Unit {0}
NumberedFrom n (d ∷ l) = (d.index ≡ n) × NumberedFrom (suc n) l

abbrev HasIndex : ℕ → Option SystemDisk → Type 0
HasIndex n none = Unit {0}
HasIndex n (some d) = d.index ≡ n

disk_of-index :
    (n : ℕ) (name size : Text) (o : Option (List Text × (Text × Text)))
    → HasIndex n (disk_of n name size o)
unfolding disk_of
disk_of-index n name size none = tt
disk_of-index n name size (some (words, (dtype, tran))) =
    if_both (HasIndex n) (same dtype (codes "disk")) refl tt

disk_line-index : (n : ℕ) (l : List Text) → HasIndex n (disk_line n l)
unfolding disk_line
disk_line-index n [] = tt
disk_line-index n (a ∷ []) = tt
disk_line-index n (a ∷ b ∷ rest) = disk_of-index n a b (last_two rest)

add-numbered :
    (n : ℕ) (o : Option SystemDisk) (l : List SystemDisk)
    → HasIndex n o
    → NumberedFrom (next_index n o) l
    → NumberedFrom n (add_disk o l)
add-numbered n none l h k = k
add-numbered n (some d) l h k = (h, k)

disk_lines-numbered : (lines : List Text) (n : ℕ) → NumberedFrom n (disk_lines lines n)
unfolding disk_lines
disk_lines-numbered [] n = tt
disk_lines-numbered (ln ∷ lines) n =
    let o = disk_line n (fields (trim_space ln)) in
    add-numbered n o _ (disk_line-index n (fields (trim_space ln)))
      (disk_lines-numbered lines (next_index n o))

-- x
pub read_disks-numbered : (out : Option Text) → NumberedFrom 0 (read_disks out)
unfolding read_disks
read_disks-numbered none = tt
read_disks-numbered (some out) = disk_lines-numbered (split b'\n' (trim_space out)) 0
