-- ===== src/SelfUpdate/Swap.antt =====
-- cmd/service/main.go: what an attempted update does to the executable.
use appcenter_agent_linux.Base.{
  ℕ, zero, suc, ◌≡◌, refl, ap, ◌∙◌, Bool, true, false, not, ◌||◌, ◌++◌, if◌then◌else◌, if_both,
  if_split, subst, [], ◌∷◌, option_split, Option, none, some, arith,
}
use appcenter_agent_linux.Text.{Text, codes, trim_space, is_empty, same}
use appcenter_agent_linux.Api.{Error, message, Result, ok, err, result_split}
use appcenter_agent_linux.Text.Laws.{same_refl, trim_space_idem}
use appcenter_agent_linux.Tasks.Command.{sanitize_version_token, expected_hash, verify_sha256}
use appcenter_agent_linux.SelfUpdate.{
  Files, Env, Offer, remove_package, back_up, activate, swap, swap_or_remove, package_error,
  apply_package, fetch_package, is_forced, wants_update, maybe_apply_self_update,
}

-- The content has the SHA-256 `hash`, compared in lower case without `sha256:`; a hash that is then
-- empty says nothing.
pub data HasHash (env : Env) (content hash : Text) : Type 0 where
  unchecked : expected_hash hash ≡ [] → HasHash env content hash
  matches :
      (got : Text)
      → env.sha256 content ≡ ok got
      → same got (expected_hash hash) ≡ true
      → HasHash env content hash

abbrev Checked : Env → Text → Text → Option Error → Type 0
Checked env content hash none = HasHash env content hash
Checked env content hash (some e) = Unit

is_empty-nil : (s : Text) → is_empty s ≡ true → s ≡ []
is_empty-nil [] h = refl
is_empty-nil (c ∷ s) h = ground arith

got-Checked :
    (env : Env) (content hash : Text) (r : Result Text)
    → env.sha256 content ≡ r
    → Checked env content hash (verify_sha256 r hash)
unfolding verify_sha256
got-Checked env content hash r q =
    if_split (Checked env content hash) (is_empty (expected_hash hash))
      (λ e. unchecked (is_empty-nil (expected_hash hash) e)) (λ e. by_result r q)
  where
    by_result :
        (r : Result Text)
        → env.sha256 content ≡ r
        → Checked env content hash (elim r [
          | err e ↦ some e
          | ok h ↦
              if same h (expected_hash hash)
              then none
              else some (
                  message (
                    codes "sha256 mismatch: got=" ++ h ++ codes " expected=" ++ expected_hash hash))
        ])
    by_result (err e) q = tt
    by_result (ok h) q =
        if_split (Checked env content hash) (same h (expected_hash hash)) (λ e. matches h q e)
          (λ e. tt)

verified :
    (env : Env) (content hash : Text)
    → verify_sha256 (env.sha256 content) hash ≡ none
    → HasHash env content hash
verified env content hash h =
    subst (Checked env content hash) h (got-Checked env content hash (env.sha256 content) refl)

-- What the code returns tells what happened to the executable `old`: on true it is the content that
-- was downloaded, which has the hash. On false it is still `old`, unless both renames that follow the
-- backup failed; then it is missing, and `old` is in the backup.
pub data Swapped (env : Env) (hash url name : Text) (old : Option Text) (r : Bool × Files)
    : Type 0 where
  replaced :
      (content : Text) (n : ℕ)
      → r.0 ≡ true
      → env.download url name ≡ ok (content, n)
      → r.1.executable ≡ some content
      → HasHash env content hash
      → Swapped env hash url name old r
  kept : r.0 ≡ false → r.1.executable ≡ old → Swapped env hash url name old r
  stranded :
      (e : Error)
      → env.restore_error ≡ some e
      → r.0 ≡ false
      → r.1.executable ≡ none
      → r.1.backup ≡ old
      → Swapped env hash url name old r

module _ (env : Env) (hash url name : Text) where
  kept_without_package :
      (f : Files) → Swapped env hash url name f.executable (false, remove_package env f)
  unfolding remove_package
  kept_without_package f =
      if_both (λ g. Swapped env hash url name f.executable (false, g)) env.removes_package
        (kept refl refl) (kept refl refl)

  stranded_without_package :
      (f : Files) (e : Error)
      → env.restore_error ≡ some e
      → f.executable ≡ none
      → Swapped env hash url name f.backup (false, remove_package env f)
  unfolding remove_package
  stranded_without_package f e h m =
      if_both (λ g. Swapped env hash url name f.backup (false, g)) env.removes_package
        (stranded e h refl m refl) (stranded e h refl m refl)

  activate-Swapped :
      (f : Files) (content : Text) (n : ℕ)
      → f.downloaded ≡ some content
      → f.executable ≡ none
      → env.download url name ≡ ok (content, n)
      → HasHash env content hash
      → Swapped env hash url name f.backup (activate env f)
  unfolding activate
  activate-Swapped f content n p m d v =
      option_split (Swapped env hash url name f.backup) env.activate_error
        (λ h.
          if_both (λ g. Swapped env hash url name f.backup (true, g)) env.removes_backup
            (replaced content n refl d p v) (replaced content n refl d p v))
        (λ e h.
          option_split (Swapped env hash url name f.backup) env.restore_error
            (λ k. kept_without_package (record f { executable = f.backup; backup = none }))
            (λ x k. stranded_without_package f x k m))

  back_up-Swapped :
      (failure : Option Error) (f : Files) (content : Text) (n : ℕ)
      → f.downloaded ≡ some content
      → env.download url name ≡ ok (content, n)
      → HasHash env content hash
      → Swapped env hash url name f.executable (back_up env failure f)
  unfolding back_up
  back_up-Swapped (some e) f content n p d v = kept_without_package f
  back_up-Swapped none f content n p d v =
      activate-Swapped (record f { executable = none; backup = f.executable }) content n p refl d v

  swap_or_remove-Swapped :
      (failure : Option Error) (f : Files) (content : Text) (n : ℕ)
      → f.downloaded ≡ some content
      → env.download url name ≡ ok (content, n)
      → (failure ≡ none → HasHash env content hash)
      → Swapped env hash url name f.executable (swap_or_remove env failure f)
  unfolding swap_or_remove swap
  swap_or_remove-Swapped (some e) f content n p d v = kept_without_package f
  swap_or_remove-Swapped none f content n p d v =
      back_up-Swapped env.backup_error
        (record f { backup = if env.removes_old_backup then none else f.backup }) content n p d
        (v refl)

  package_error-none :
      (content : Text)
      → package_error env hash content ≡ none
      → verify_sha256 (env.sha256 content) hash ≡ none
  unfolding package_error
  package_error-none content h = ground arith

  apply_package-Swapped :
      (content : Text) (n : ℕ) (f : Files)
      → f.downloaded ≡ some content
      → env.download url name ≡ ok (content, n)
      → Swapped env hash url name f.executable (apply_package env hash content n f)
  unfolding apply_package
  apply_package-Swapped content zero f p d = kept_without_package f
  apply_package-Swapped content (suc n) f p d =
      swap_or_remove-Swapped (package_error env hash content) f content (suc n) p d
        (λ e. verified env content hash (package_error-none content e))

  fetch_package-Swapped :
      (f : Files) → Swapped env hash url name f.executable (fetch_package env hash url name f)
  unfolding fetch_package
  fetch_package-Swapped f =
      result_split (Swapped env hash url name f.executable) (env.download url name)
        (λ a e. apply_package-Swapped a.0 a.1 (record f { downloaded = some a.0 }) refl e)
        (λ x e. kept refl refl)

-- Whatever fails in a self-update, the executable is the old one, or what was downloaded from the
-- offered URL with the offered SHA-256, and the result says which; an offered hash of nothing but
-- `sha256:` is not compared. Only when the restoring rename fails as well is the executable
-- missing, and then the backup holds the old one.
pub maybe_apply_self_update-Swapped :
    (env : Env) (offer : Offer) (mode version : Text) (f : Files)
    → let r = maybe_apply_self_update env offer mode version f in
      Swapped env
        (trim_space offer.agent_hash)
        (trim_space offer.agent_download_url)
        (codes "agent_self_update_"
          ++ sanitize_version_token (trim_space offer.latest_agent_version)
          ++ codes ".bin")
        f.executable
        (r.0, r.1.1)
unfolding maybe_apply_self_update
maybe_apply_self_update-Swapped env offer mode version f =
    let hash = trim_space offer.agent_hash in
    let url = trim_space offer.agent_download_url in
    let target = trim_space offer.latest_agent_version in
    let name = codes "agent_self_update_" ++ sanitize_version_token target ++ codes ".bin" in
    let skips = not (wants_update offer version mode) || is_empty url || is_empty hash in
    if_both {A = Bool × (Text × Files)} (λ r. Swapped env hash url name f.executable (r.0, r.1.1))
      skips (kept refl refl) (fetch_package-Swapped env hash url name f)

not_wanted :
    (offer : Offer) (mode : Text)
    → is_forced mode ≡ false
    → wants_update offer (trim_space offer.latest_agent_version) mode ≡ false
unfolding wants_update
not_wanted offer mode m =
    let t = trim_space offer.latest_agent_version in
    ground (arith, m, same_refl t, trim_space_idem offer.latest_agent_version)

unwanted_kept :
    (env : Env) (offer : Offer) (mode version : Text) (f : Files)
    → wants_update offer version mode ≡ false
    → maybe_apply_self_update env offer mode version f ≡ (false, (version, f))
unfolding maybe_apply_self_update
unwanted_kept env offer mode version f h = ground (arith, h)

applied_version :
    (env : Env) (offer : Offer) (mode version : Text) (f : Files)
    → (maybe_apply_self_update env offer mode version f).0 ≡ true
    → (maybe_apply_self_update env offer mode version f).1.0 ≡ trim_space offer.latest_agent_version
unfolding maybe_apply_self_update
applied_version env offer mode version f h = ground (arith, h)

-- An offer that was applied is not applied a second time, unless the mode forces it: the next try
-- changes neither the version nor a file, whatever its calls would give.
pub update_once :
    (env env' : Env) (offer : Offer) (mode version : Text) (f : Files)
    → is_forced mode ≡ false
    → (maybe_apply_self_update env offer mode version f).0 ≡ true
    → let r = (maybe_apply_self_update env offer mode version f).1 in
      maybe_apply_self_update env' offer mode r.0 r.1 ≡ (false, r)
update_once env env' offer mode version f m h =
    let r = (maybe_apply_self_update env offer mode version f).1 in
    let e = applied_version env offer mode version f h in
    unwanted_kept env' offer mode r.0 r.1
      (ap (λ v. wants_update offer v mode) e ∙ not_wanted offer mode m)
