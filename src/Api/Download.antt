-- ===== src/Api/Download.antt =====
-- internal/api/client.go: `NewClient`, `DownloadToFile` and `parseFilenameFromContentDisposition`. What
-- the server and the file system answer is a parameter.
pub mod Inside
use appcenter_agent_linux.Base.{
  ◌≡◌, ◌≢◌, refl, ap, sym, arith, ◌⊎◌, inl, inr, ℕ, zero, suc, ◌+◌, ◌++◌, Bool, true, false, not,
  ◌&&◌, ◌||◌, List, [], ◌∷◌, if◌then◌else◌, if_both, if_split, Option, none, some, ◌==◌, map,
}
use appcenter_agent_linux.Text.{
  Text, codes, trim_space, trim_left, trim_right, put_front, itoa, has_prefix, lower, fold_case,
  to_lower, same, is_empty, is_space, trim_right_slash, drop,
}
use appcenter_agent_linux.Text.Split.{trim_char, last_element}
use appcenter_agent_linux.Api.{Error, message, error_text, Result, ok, err, is_failure}

-- What the download meets: the request (an error, or the status, the Content-Disposition header and
-- the body), and the errors of the directory, of the file and of the copy to it.
pub data Exchange : Type 0 where
  failed : Error → Exchange
  response : ℕ → Text → Text → Exchange

pub record Env : Type 0 where
  pub request : Text → Result (Unit {0})
  pub exchange : Text → Exchange
  -- filepath.Join
  pub join : Text → Text → Text
  pub mkdir_error : Option Error
  pub open_error : Text → Option Error
  -- the number of bytes that io.Copy writes
  pub copied : Text → Result ℕ

-- NewClient: the base URL
unfoldable pub new_client : Text → Text
unfolding trim_right_slash
new_client base_url = trim_right_slash base_url

-- The characters up to the first quote or semicolon: [^";]+
unfoldable pub until_end : Text → Text
until_end [] = []
until_end (c ∷ s) = let rest = until_end s in if c == b'"' || c == b';' then [] else c ∷ rest

abbrev pub skip_quote : Text → Text
skip_quote [] = []
skip_quote (c ∷ s) = if c == b'"' then s else c ∷ s

-- The group of (?i)filename="?([^";]+) where it matches at the start of a text, or nothing
unfoldable pub match_here : Text → Text
unfolding has_prefix fold_case until_end
match_here s =
    if has_prefix (map fold_case s) (codes "filename=")
    then until_end (skip_quote (drop 9 s))
    else []

-- cdFilenameRe.FindStringSubmatch: the group of the first match, or nothing
unfoldable pub find_filename : Text → Text
unfolding match_here
find_filename [] = []
find_filename (c ∷ s) =
    let rest = find_filename s in
    let found = match_here (c ∷ s) in if is_empty found then rest else found

-- filepath.Base
unfoldable pub base : Text → Text
unfolding last_element trim_right_slash
base s =
    let t = trim_right_slash s in
    if is_empty s then codes "." else if is_empty t then codes "/" else last_element t []

-- parseFilenameFromContentDisposition; the empty text where there is no name
unfoldable pub parse_filename_from_content_disposition : Text → Text
unfolding find_filename trim_space trim_char base same
parse_filename_from_content_disposition v =
    let found = find_filename v in
    let name = base (trim_char b'"' (trim_space found)) in
    if is_empty found || (same name (codes ".") || same name (codes "/")) then [] else name

-- The name of the file: the server's, or the default
unfoldable pub out_name : Text → Text → Text
unfolding parse_filename_from_content_disposition
out_name disposition default_name =
    let n = parse_filename_from_content_disposition disposition in
    if is_empty n then default_name else n

-- The URL of a download
unfoldable pub download_target : Text → Text → Text
unfolding has_prefix
download_target base_url url = if has_prefix url (codes "/") then base_url ++ url else url

abbrev prefixed : Text → Error → Error
prefixed text e = message (text ++ error_text e)

-- DownloadToFile from the opening of the file on
unfoldable pub write_file : Env → Text → Text → Result (Text × ℕ)
write_file env path body = elim (env.open_error path) [
  | some e ↦ err (prefixed (codes "open download file: ") e)
  | none ↦ elim (env.copied body) [
    | err e ↦ err (prefixed (codes "write download file: ") e)
    | ok n ↦ ok (path, n)
  ]
]

unfoldable pub save_response : Env → Text → Text → Exchange → Result (Text × ℕ)
unfolding out_name write_file
save_response env dir name (failed e) = err e
save_response env dir name (response status disposition body) =
    if is_failure status
    then err
        (message (codes "download failed: HTTP " ++ itoa status ++ codes ": " ++ trim_space body))
    else elim env.mkdir_error [
      | some e ↦ err (prefixed (codes "mkdir download dir: ") e)
      | none ↦ write_file env (env.join dir (out_name disposition name)) body
    ]

-- DownloadToFile: the path and the size of the file
unfoldable pub download_to_file : Env → Text → Text → Text → Text → Result (Text × ℕ)
unfolding download_target save_response
download_to_file env base_url url dir name =
    if is_empty url
    then err (message (codes "download url is empty"))
    else elim (env.request (download_target base_url url)) [
      | err e ↦ err (prefixed (codes "build request: ") e)
      | ok u ↦ save_response env dir name (env.exchange (download_target base_url url))
    ]

server_name :
    parse_filename_from_content_disposition (codes "attachment; FileName=\"a/b.deb\"; x")
    ≡ codes "b.deb"
unfolding parse_filename_from_content_disposition fold_case lower has_prefix trim_space last_element
    trim_char
server_name = refl

no_name : parse_filename_from_content_disposition (codes "filename=\"/\"") ≡ []
unfolding parse_filename_from_content_disposition fold_case lower has_prefix trim_space last_element
    trim_char trim_right_slash
no_name = refl
