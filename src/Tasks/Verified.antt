-- ===== src/Tasks/Verified.antt =====
-- cmd/service/main.go and pkg/utils/hash.go: the hash of a command in `validateInstallCommand` and in
-- `VerifySHA256`.
use appcenter_agent_linux.Base.{ℕ, ◌≡◌, refl, ap, ◌∙◌, true, false, [], ◌∷◌, none, map, arith}
use appcenter_agent_linux.Text.{
  Text, codes, trim_space, is_empty, to_lower, lower, is_space, trim_left, trim_right, put_front,
  trim_prefix,
}
use appcenter_agent_linux.Text.Laws.{same-eq}
use appcenter_agent_linux.Api.{Result, ok, err}
use appcenter_agent_linux.Tasks.Command.{
  Command, is_sha256_hex, normal_hash, expected_hash, verify_sha256, validate_install_command,
}

lower-is_space : (c : ℕ) → is_space (lower c) ≡ is_space c
unfolding lower is_space
lower-is_space c = ground arith

trim_left-to_lower : (s : Text) → trim_left (map lower s) ≡ map lower (trim_left s)
unfolding trim_left
trim_left-to_lower [] = refl
trim_left-to_lower (c ∷ s) = ground (arith, lower-is_space c, trim_left-to_lower s)

put_front-lower : (c : ℕ) (s : Text) → put_front (lower c) (map lower s) ≡ map lower (put_front c s)
unfolding put_front
put_front-lower c [] = ground (arith, lower-is_space c)
put_front-lower c (d ∷ s) = refl

trim_right-to_lower : (s : Text) → trim_right (map lower s) ≡ map lower (trim_right s)
unfolding trim_right
trim_right-to_lower [] = refl
trim_right-to_lower (c ∷ s) =
    ap (put_front (lower c)) (trim_right-to_lower s) ∙ put_front-lower c (trim_right s)

-- Trimming and lowering commute.
trim_space-to_lower : (s : Text) → trim_space (to_lower s) ≡ to_lower (trim_space s)
unfolding trim_space to_lower
trim_space-to_lower s = ap trim_left (trim_right-to_lower s) ∙ trim_left-to_lower (trim_right s)

expected_hash-normal_hash : (h : Text) → expected_hash h ≡ normal_hash h
unfolding expected_hash normal_hash
expected_hash-normal_hash h = ap (λ t. trim_prefix t (codes "sha256:")) (trim_space-to_lower h)

-- An accepted command has a hash of 64 hexadecimal digits.
pub valid-is_sha256_hex :
    (cmd : Command)
    → validate_install_command cmd ≡ []
    → is_sha256_hex (normal_hash cmd.file_hash) ≡ true
unfolding validate_install_command
valid-is_sha256_hex cmd v = ground arith

hex_ne_empty : (s : Text) → is_sha256_hex s ≡ true → is_empty s ≡ false
unfolding is_sha256_hex
hex_ne_empty [] h = ground arith
hex_ne_empty (c ∷ s) h = refl

verify_lem :
    (got : Result Text) (h : Text)
    → is_empty (expected_hash h) ≡ false
    → verify_sha256 got h ≡ none
    → got ≡ ok (expected_hash h)
unfolding verify_sha256
verify_lem (err e) h n v = ground arith
verify_lem (ok g) h n v = ground (arith, same-eq g (expected_hash h))

-- For a command that was accepted, the hash check lets through only a file whose SHA-256 is the
-- command's, in lower case, without outer space and without the prefix "sha256:".
pub verified_hash :
    (cmd : Command) (got : Result Text)
    → validate_install_command cmd ≡ []
    → verify_sha256 got cmd.file_hash ≡ none
    → got ≡ ok (normal_hash cmd.file_hash)
verified_hash cmd got v e =
    let s = expected_hash-normal_hash cmd.file_hash in
    verify_lem got cmd.file_hash
      (ap is_empty s ∙ hex_ne_empty (normal_hash cmd.file_hash) (valid-is_sha256_hex cmd v)) e
    ∙ ap ok s
