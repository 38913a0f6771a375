-- ===== src/Api/Download/Inside.antt =====
-- internal/api/client.go: where a download is written.
use appcenter_agent_linux.Base.{
  ◌≡◌, refl, subst, arith, ◌⊎◌, inl, inr, ℕ, ◌++◌, Bool, true, false, not, ◌&&◌, ◌||◌, [], ◌∷◌,
  if◌then◌else◌, if_both, if_split, option_split, ◌==◌,
}
use appcenter_agent_linux.Text.{Text, codes, trim_space, same, is_empty, trim_right_slash}
use appcenter_agent_linux.Text.Split.{trim_char, last_element}
use appcenter_agent_linux.Api.{Result, ok, err, is_failure, result_split}
use appcenter_agent_linux.Api.Download.{
  Env, Exchange, failed, response, find_filename, base, parse_filename_from_content_disposition,
  out_name, write_file, save_response, download_to_file, download_target,
}

-- The text has no slash.
abbrev pub is_one_element : Text → Bool
is_one_element [] = true
is_one_element (c ∷ s) = not (c == b'/') && is_one_element s

snoc-element :
    (s : Text) (c : ℕ)
    → is_one_element s ≡ true
    → (c == b'/') ≡ false
    → is_one_element (s ++ c ∷ []) ≡ true
snoc-element [] c h k = ground arith
snoc-element (d ∷ s) c h k = ground (arith, snoc-element s c)

last_element-one :
    (s found : Text) → is_one_element found ≡ true → is_one_element (last_element s found) ≡ true
unfolding last_element
last_element-one [] found h = h
last_element-one (c ∷ s) found h = last_element-one s (if c == b'/' then [] else found ++ c ∷ []) (
    if_split (λ (t : Text). is_one_element t ≡ true) (c == b'/') (λ e. refl)
      (λ e. snoc-element found c h e))

base-one : (s : Text) → (is_one_element (base s) || same (base s) (codes "/")) ≡ true
unfolding base same
base-one s =
    let P = λ (t : Text). (is_one_element t || same t (codes "/")) ≡ true in
    if_both P (is_empty s) refl (
      if_both P (is_empty (trim_right_slash s)) refl
        (ground (arith, last_element-one (trim_right_slash s) [] refl)))

-- A name of one element that is not the directory itself
abbrev pub is_file_name : Text → Bool
is_file_name s = is_one_element s && (not (is_empty s) && not (same s (codes ".")))

guarded :
    (found name : Text)
    → (is_one_element name || same name (codes "/")) ≡ true
    → let n =
        (if is_empty found || (same name (codes ".") || same name (codes "/")) then [] else name) in
      (is_empty n || is_file_name n) ≡ true
guarded found name h =
    if_split (λ (t : Text). (is_empty t || is_file_name t) ≡ true)
      (is_empty found || (same name (codes ".") || same name (codes "/"))) (λ e. refl)
      (λ e. ground (arith, h))

parsed-file_name :
    (v : Text)
    → let n = parse_filename_from_content_disposition v in (is_empty n || is_file_name n) ≡ true
unfolding parse_filename_from_content_disposition
parsed-file_name v =
    guarded (find_filename v) (base (trim_char b'"' (trim_space (find_filename v))))
      (base-one (trim_char b'"' (trim_space (find_filename v))))

out_name-plain :
    (v name : Text) → (out_name v name ≡ name) ⊎ (is_file_name (out_name v name) ≡ true)
unfolding out_name
out_name-plain v name =
    let n = parse_filename_from_content_disposition v in
    if_split (λ (t : Text). (t ≡ name) ⊎ (is_file_name t ≡ true)) (is_empty n) (λ e. inl refl)
      (λ e. inr (ground (arith, parsed-file_name v, e)))

-- The file that a result names
abbrev Placed : Env → Text → Text → Result (Text × ℕ) → Type 0
Placed env dir name (err e) = Unit {0}
Placed env dir name (ok r) =
    (file : Text) × (r.0 ≡ env.join dir file) × ((file ≡ name) ⊎ (is_file_name file ≡ true))

write-Placed :
    (env : Env) (dir name file body : Text)
    → (file ≡ name) ⊎ (is_file_name file ≡ true)
    → Placed env dir name (write_file env (env.join dir file) body)
unfolding write_file
write-Placed env dir name file body h =
    option_split (Placed env dir name) (env.open_error (env.join dir file))
      (λ e.
        result_split (Placed env dir name) (env.copied body) (λ n c. (file, refl, h)) (λ k c. tt))
      (λ k e. tt)

save-Placed :
    (env : Env) (dir name : Text) (x : Exchange)
    → Placed env dir name (save_response env dir name x)
unfolding save_response
save-Placed env dir name (failed e) = tt
save-Placed env dir name (response status disposition body) =
    if_both (Placed env dir name) (is_failure status) tt (
      option_split (Placed env dir name) env.mkdir_error
        (λ e.
          write-Placed env dir name (out_name disposition name) body
            (out_name-plain disposition name))
        (λ k e. tt))

download-Placed :
    (env : Env) (base_url url dir name : Text)
    → Placed env dir name (download_to_file env base_url url dir name)
unfolding download_to_file
download-Placed env base_url url dir name = if_both (Placed env dir name) (is_empty url) tt (
    result_split (Placed env dir name) (env.request (download_target base_url url))
      (λ u c. save-Placed env dir name (env.exchange (download_target base_url url))) (λ e c. tt))

-- Where a download succeeds, the file has the default name or one with no slash that is neither
-- empty nor a single dot, and its path is that name joined to the directory, whatever name the
-- server sends.
pub download_to_file-inside :
    (env : Env) (base_url url dir name path : Text) (n : ℕ)
    → download_to_file env base_url url dir name ≡ ok (path, n)
    → (file : Text) × (path ≡ env.join dir file) × ((file ≡ name) ⊎ (is_file_name file ≡ true))
download_to_file-inside env base_url url dir name path n h =
    subst (Placed env dir name) h (download-Placed env base_url url dir name)
