-- ===== src/SelfUpdate.antt =====
-- cmd/service/main.go: `maybeApplySelfUpdate`. The files that it touches are a record of their
-- contents; `none` is a missing file. Every outside call is made at most once, so its result is a
-- field of `Env`. A call that fails leaves the files as they are.
pub mod Swap
pub mod Version
use appcenter_agent_linux.Base.{
  ℕ, zero, suc, ◌++◌, Bool, true, false, not, ◌&&◌, ◌||◌, List, [], ◌∷◌, if◌then◌else◌, Option,
  none, some, ltb,
}
use appcenter_agent_linux.Text.{Text, codes, trim_space, is_empty, to_lower, same}
use appcenter_agent_linux.Api.{Error, Result, ok, err}
use appcenter_agent_linux.Tasks.Command.{sanitize_version_token, verify_sha256}

pub record Files : Type 0 where
  pub downloaded : Option Text
  pub executable : Option Text
  pub backup : Option Text

pub record Env : Type 0 where
  -- the content of the downloaded file and its length, by URL and name
  pub download : Text → Text → Result (Text × ℕ)
  -- the SHA-256 of a content, in hexadecimal
  pub sha256 : Text → Result Text
  pub executable_error : Option Error
  pub chmod_error : Option Error
  pub backup_error : Option Error
  pub activate_error : Option Error
  pub restore_error : Option Error
  -- whether os.Remove of the package, of the old and of the new backup succeeds
  pub removes_package : Bool
  pub removes_old_backup : Bool
  pub removes_backup : Bool

-- The three fields of `HeartbeatConfig` that the update reads
pub record Offer : Type 0 where
  pub latest_agent_version : Text
  pub agent_download_url : Text
  pub agent_hash : Text

unfoldable pub remove_package : Env → Files → Files
remove_package env f = if env.removes_package then record f { downloaded = none } else f

-- The rename of the package to the executable. When it fails the backup is renamed back.
unfoldable pub activate : Env → Files → Bool × Files
unfolding remove_package
activate env f = elim env.activate_error [
  | none ↦
      let g = record f { executable = f.downloaded; downloaded = none } in
      (true, if env.removes_backup then record g { backup = none } else g)
  | some e ↦ elim env.restore_error [
    | none ↦ (false, remove_package env (record f { executable = f.backup; backup = none }))
    | some r ↦ (false, remove_package env f)
  ]
]

-- os.Rename(exePath, backupPath) with its error, and what follows it
unfoldable pub back_up : Env → Option Error → Files → Bool × Files
unfolding activate remove_package
back_up env (some e) f = (false, remove_package env f)
back_up env none f = activate env (record f { executable = none; backup = f.executable })

-- From `backupPath` to the new executable
unfoldable pub swap : Env → Files → Bool × Files
unfolding back_up
swap env f =
    back_up env env.backup_error
      (record f { backup = if env.removes_old_backup then none else f.backup })

abbrev pub or_else : Option Error → Option Error → Option Error
or_else (some e) b = some e
or_else none b = b

-- The checks of the downloaded package, in the code's order
unfoldable pub package_error : Env → Text → Text → Option Error
unfolding verify_sha256
package_error env hash content =
    or_else (verify_sha256 (env.sha256 content) hash) (or_else env.executable_error env.chmod_error)

-- What follows the checks
unfoldable pub swap_or_remove : Env → Option Error → Files → Bool × Files
unfolding swap remove_package
swap_or_remove env (some e) f = (false, remove_package env f)
swap_or_remove env none f = swap env f

-- What follows a download of `n` bytes
unfoldable pub apply_package : Env → Text → Text → ℕ → Files → Bool × Files
unfolding package_error swap_or_remove remove_package
apply_package env hash content zero f = (false, remove_package env f)
apply_package env hash content (suc n) f = swap_or_remove env (package_error env hash content) f

-- The download and what follows it
unfoldable pub fetch_package : Env → Text → Text → Text → Files → Bool × Files
unfolding apply_package
fetch_package env hash url name f = elim (env.download url name) [
  | err e ↦ (false, f)
  | ok (content, n) ↦ apply_package env hash content n (record f { downloaded = some content })
]

-- mode == "force", after trimming and lowering
unfoldable pub is_forced : Text → Bool
is_forced mode = same (trim_space (to_lower mode)) (codes "force")

-- Whether the offer is for another version, or is forced
unfoldable pub wants_update : Offer → Text → Text → Bool
unfolding is_forced
wants_update offer version mode =
    let target = trim_space offer.latest_agent_version in
    let current = trim_space version in
    not (is_empty target || is_empty current) && (is_forced mode || not (same target current))

-- maybeApplySelfUpdate, with the agent's version: whether the executable was replaced, and the
-- version and the files after it.
unfoldable pub maybe_apply_self_update : Env → Offer → Text → Text → Files → Bool × (Text × Files)
unfolding wants_update fetch_package sanitize_version_token
maybe_apply_self_update env offer mode version f =
    let target = trim_space offer.latest_agent_version in
    let url = trim_space offer.agent_download_url in
    let hash = trim_space offer.agent_hash in
    let name = codes "agent_self_update_" ++ sanitize_version_token target ++ codes ".bin" in
    let r = fetch_package env hash url name f in
    if not (wants_update offer version mode) || is_empty url || is_empty hash
    then (false, (version, f))
    else (r.0, (if r.0 then target else version, r.1))
