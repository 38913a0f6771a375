-- ===== src/Tasks/Command.antt =====
-- cmd/service/main.go: the checks and names of an install command, and pkg/utils/hash.go.
use appcenter_agent_linux.Base.{
  ℕ, ◌-◌, ◌++◌, ℤ, is_positive, is_negative, Bool, true, ◌&&◌, ◌||◌, not, [], ◌∷◌, if◌then◌else◌,
  Option, none, some, leb, ◌==◌, map, replicate,
}
use appcenter_agent_linux.Text.{
  Text, codes, trim_space, is_empty, to_lower, trim_prefix, contains, has_suffix, itoa_ℤ, same,
  count, byte_length, utf8_size,
}
use appcenter_agent_linux.Api.{Error, message, Result, ok, err}

-- internal/api/client.go: `Command`
pub record Command : Type 0 where
  pub task_id : ℤ
  pub action : Text
  pub app_id : ℤ
  pub app_name : Text
  pub app_version : Text
  pub download_url : Text
  pub file_hash : Text
  pub file_size_bytes : ℤ
  pub install_args : Text
  pub force_update : Bool
  pub priority : ℤ

unfoldable pub is_hex : ℕ → Bool
is_hex c = leb b'a' c && leb c b'f' || leb b'0' c && leb c b'9'

unfoldable pub all_hex : Text → Bool
unfolding is_hex
all_hex [] = true
all_hex (c ∷ s) = is_hex c && all_hex s

-- sha256HexRe.MatchString
unfoldable pub is_sha256_hex : Text → Bool
unfolding all_hex
is_sha256_hex s = count s == 64 && all_hex s

-- The hash of a command, in the form that it is checked in.
unfoldable pub normal_hash : Text → Text
normal_hash hash = trim_prefix (to_lower (trim_space hash)) (codes "sha256:")

-- validateInstallCommand: the empty text, or what is wrong
unfoldable pub validate_install_command : Command → Text
unfolding is_sha256_hex normal_hash
validate_install_command cmd =
    if not (is_positive cmd.task_id)
    then codes "task_id must be positive"
    else if not (is_positive cmd.app_id)
    then codes "app_id must be positive"
    else if is_empty (trim_space cmd.download_url)
    then codes "download_url is required"
    else if is_empty (trim_space cmd.file_hash)
    then codes "file_hash is required"
    else if is_negative cmd.file_size_bytes
    then codes "file_size_bytes must be >= 0"
    else if is_sha256_hex (normal_hash cmd.file_hash)
    then []
    else codes "file_hash must be sha256 hex"

-- The hash that VerifySHA256 compares with.
unfoldable pub expected_hash : Text → Text
expected_hash expected = trim_prefix (trim_space (to_lower expected)) (codes "sha256:")

-- VerifySHA256, with the file's hash or the error of reading it; `none` is the nil error.
unfoldable pub verify_sha256 : Result Text → Text → Option Error
unfolding expected_hash
verify_sha256 got expected = if is_empty (expected_hash expected) then none else elim got [
  | err e ↦ some e
  | ok h ↦
      if same h (expected_hash expected)
      then none
      else some (
          message
            (codes "sha256 mismatch: got=" ++ h ++ codes " expected=" ++ expected_hash expected))
]

-- The extension that buildDownloadFilename chooses
unfoldable pub download_extension : Text → Text
download_extension url =
    let u = to_lower (trim_space url) in
    if contains u (codes ".tar.gz")
    then codes ".tar.gz"
    else if contains u (codes ".deb")
    then codes ".deb"
    else if contains u (codes ".sh")
    then codes ".sh"
    else codes ".bin"

-- buildDownloadFilename
unfoldable pub build_download_filename : Command → Text
unfolding download_extension
build_download_filename cmd =
    codes "task_"
    ++ itoa_ℤ cmd.task_id
    ++ codes "_app_"
    ++ itoa_ℤ cmd.app_id
    ++ download_extension cmd.download_url

-- filepath.Ext: from the last dot of the last path element, or nothing. `found` is the extension
-- seen so far.
unfoldable pub path_ext : Text → Text → Text
path_ext [] found = found
path_ext (c ∷ s) found = path_ext s (if c == b'/' then [] else if c == b'.' then c ∷ s else found)

-- detectLinuxInstallerType
unfoldable pub detect_linux_installer_type : Text → Text
unfolding path_ext
detect_linux_installer_type path =
    let lower = to_lower (trim_space path) in
    if has_suffix lower (codes ".tar.gz")
    then codes ".tar.gz"
    else if has_suffix lower (codes ".deb")
    then codes ".deb"
    else if has_suffix lower (codes ".sh")
    then codes ".sh"
    else path_ext lower []

-- The first `n` bytes of a text; each byte of a character that is cut is replaced, as the JSON
-- encoder does, by U+FFFD.
unfoldable pub take_bytes : ℕ → Text → Text
unfolding utf8_size
take_bytes n [] = []
take_bytes n (c ∷ s) =
    let rest = take_bytes (n - utf8_size c) s in
    if leb (utf8_size c) n then c ∷ rest else replicate n 0xfffd

-- trimOutput
unfoldable pub trim_output : Text → ℕ → Text
unfolding take_bytes
trim_output s max =
    let t = trim_space s in if leb (byte_length t) max then t else take_bytes max t ++ codes "..."

abbrev pub is_version_char : ℕ → Bool
is_version_char r =
    leb b'a' r && leb r b'z'
    || leb b'A' r && leb r b'Z'
    || leb b'0' r && leb r b'9'
    || r == b'.'
    || r == b'-'
    || r == b'_'

-- sanitizeVersionToken
unfoldable pub sanitize_version_token : Text → Text
sanitize_version_token v =
    let t = trim_space v in
    if is_empty t then codes "unknown" else map (λ r. if is_version_char r then r else b'_') t
