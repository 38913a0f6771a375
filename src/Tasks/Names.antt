-- ===== src/Tasks/Names.antt =====
-- cmd/service/main.go: the names of downloaded files, `buildDownloadFilename` and
-- `sanitizeVersionToken`.
use appcenter_agent_linux.Base.{
  ℕ, zero, suc, ◌+◌, ◌/◌, ◌%◌, ◌++◌, ◌≡◌, refl, ℤ, pos, negsuc, true, false, [], ◌∷◌, All, map,
  if◌then◌else◌, if_both, if_split, ltb, arith,
}
use appcenter_agent_linux.Text.{
  Text, codes, digits, itoa, itoa_ℤ, trim_space, to_lower, contains, is_empty,
}
use appcenter_agent_linux.Tasks.Command.{
  Command, is_version_char, sanitize_version_token, download_extension, build_download_filename,
}

-- That a text is a plain file name: only ASCII letters, digits, dots, dashes and underscores, so
-- that it has no directory.
abbrev pub IsPlain : Text → Type 0
IsPlain s = All (λ c. is_version_char c ≡ true) s

IsPlain-append : (s t : Text) → IsPlain s → IsPlain t → IsPlain (s ++ t)
IsPlain-append [] t h k = k
IsPlain-append (c ∷ s) t h k = (h.0, IsPlain-append s t h.1 k)

digit-IsPlain : (n : ℕ) → is_version_char (b'0' + n % 10) ≡ true
digit-IsPlain n = ground arith

digits-IsPlain : (fuel n : ℕ) (out : Text) → IsPlain out → IsPlain (digits fuel n out)
unfolding digits
digits-IsPlain zero n out h = h
digits-IsPlain (suc fuel) n out h =
    if_split IsPlain (ltb n 10) (λ e. (ground arith, h))
      (λ e. digits-IsPlain fuel (n / 10) ((b'0' + n % 10) ∷ out) (digit-IsPlain n, h))

itoa_ℤ-IsPlain : (x : ℤ) → IsPlain (itoa_ℤ x)
unfolding itoa_ℤ itoa
itoa_ℤ-IsPlain (pos n) = digits-IsPlain (suc n) n [] tt
itoa_ℤ-IsPlain (negsuc n) = (refl, digits-IsPlain (suc (suc n)) (suc n) [] tt)

extension-IsPlain : (url : Text) → IsPlain (download_extension url)
unfolding download_extension
extension-IsPlain url =
    let u = to_lower (trim_space url) in
    if_both IsPlain (contains u (codes ".tar.gz"))
      (refl, (refl, (refl, (refl, (refl, (refl, (refl, tt)))))))
      (if_both IsPlain (contains u (codes ".deb")) (refl, (refl, (refl, (refl, tt))))
        (if_both IsPlain (contains u (codes ".sh")) (refl, (refl, (refl, tt)))
          (refl, (refl, (refl, (refl, tt))))))

-- Whatever command the server sends, the name that the agent gives its download, which is the
-- default one where the response offers none, has only ASCII letters, digits, dots, dashes and
-- underscores.
pub build_download_filename-IsPlain : (cmd : Command) → IsPlain (build_download_filename cmd)
unfolding build_download_filename
build_download_filename-IsPlain cmd =
    let task : Text = codes "task_" ++ itoa_ℤ cmd.task_id in
    let app : Text = task ++ codes "_app_" in
    let stem : Text = app ++ itoa_ℤ cmd.app_id in
    let task_plain =
      IsPlain-append (codes "task_") (itoa_ℤ cmd.task_id) (refl, (refl, (refl, (refl, (refl, tt)))))
        (itoa_ℤ-IsPlain cmd.task_id) in
    let app_plain =
      IsPlain-append task (codes "_app_") task_plain (refl, (refl, (refl, (refl, (refl, tt))))) in
    IsPlain-append stem (download_extension cmd.download_url)
      (IsPlain-append app (itoa_ℤ cmd.app_id) app_plain (itoa_ℤ-IsPlain cmd.app_id))
      (extension-IsPlain cmd.download_url)

masked-IsPlain : (s : Text) → IsPlain (map (λ r. if is_version_char r then r else b'_') s)
masked-IsPlain [] = tt
masked-IsPlain (c ∷ s) = (
  if_split (λ x. is_version_char x ≡ true) (is_version_char c) (λ e. e) (λ e. refl),
  masked-IsPlain s,
)

masked-full :
    (s : Text)
    → is_empty s ≡ false
    → is_empty (map (λ r. if is_version_char r then r else b'_') s) ≡ false
masked-full [] h = h
masked-full (c ∷ s) h = refl

abbrev IsFileName : Text → Type 0
IsFileName s = IsPlain s × (is_empty s ≡ false)

-- Whatever version the server offers, its token in the name that the agent gives the download is not
-- empty and has only ASCII letters, digits, dots, dashes and underscores.
pub sanitize_version_token-IsPlain :
    (v : Text) → IsPlain (sanitize_version_token v) × (is_empty (sanitize_version_token v) ≡ false)
unfolding sanitize_version_token
sanitize_version_token-IsPlain v =
    if_split IsFileName (is_empty (trim_space v))
      (λ e. ((refl, (refl, (refl, (refl, (refl, (refl, (refl, tt))))))), refl))
      (λ e. (masked-IsPlain (trim_space v), masked-full (trim_space v) e))
