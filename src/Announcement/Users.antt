-- ===== src/Announcement/Users.antt =====
-- internal/announcement/notify_linux.go: to whom a notification goes.
use appcenter_agent_linux.Base.{
  false, ◌||◌, List, [], ◌∷◌, Option, none, some, ◌≡◌, arith, if_split, if_both,
}
use appcenter_agent_linux.Text.{Text, codes, trim_space, same}
use appcenter_agent_linux.Text.Split.{split, fields}
use appcenter_agent_linux.Api.{Result, ok, err}
use appcenter_agent_linux.Services.{is_one_of}
use appcenter_agent_linux.Announcement.Notify.{
  DesktopSession, Env, desktop_session, shown_session, session_of, fallback_id, fallback_of, see,
  add_session, read_sessions, fallback_sessions, listed_sessions, find_desktop_sessions,
  parse_loginctl_props, is_desktop,
}

-- A round names no user that was seen.
abbrev IsNew : List Text → Option DesktopSession → Type 0
IsNew seen none = Unit {0}
IsNew seen (some s) = is_one_of s.user seen ≡ false

desktop-IsNew :
    (env : Env) (seen : List Text) (user : Text) (r : Result Text)
    → is_one_of user seen ≡ false
    → IsNew seen (shown_session env user r)
unfolding shown_session desktop_session
desktop-IsNew env seen user (err e) h = tt
desktop-IsNew env seen user (ok out) h =
    if_both (IsNew seen) (is_desktop (parse_loginctl_props out)) h tt

session-IsNew : (env : Env) (seen l : List Text) → IsNew seen (session_of env seen l)
unfolding session_of
session-IsNew env seen [] = tt
session-IsNew env seen (a ∷ []) = tt
session-IsNew env seen (a ∷ b ∷ []) = tt
session-IsNew env seen (a ∷ b ∷ user ∷ l) =
    if_split (IsNew seen) (is_one_of user seen) (λ e. tt)
      (λ e. desktop-IsNew env seen user (env.show_session a) e)

fallback_id-IsNew :
    (env : Env) (seen : List Text) (user : Text) (r : Result Text)
    → is_one_of user seen ≡ false
    → IsNew seen (fallback_id env user r)
unfolding fallback_id
fallback_id-IsNew env seen user (err e) h = tt
fallback_id-IsNew env seen user (ok out) h = h

fallback-IsNew : (env : Env) (seen l : List Text) → IsNew seen (fallback_of env seen l)
unfolding fallback_of
fallback-IsNew env seen [] = tt
fallback-IsNew env seen (a ∷ []) = tt
fallback-IsNew env seen (user ∷ b ∷ l) =
    if_split (IsNew seen) (is_one_of user seen || same user (codes "root")) (λ e. tt)
      (λ e. fallback_id-IsNew env seen user (env.id_of user) (ground arith))

-- No two sessions are of one user, and none of a user seen before.
abbrev pub DistinctUsers : List Text → List DesktopSession → Type 0
DistinctUsers seen [] = Unit {0}
DistinctUsers seen (s ∷ l) = (is_one_of s.user seen ≡ false) × DistinctUsers (s.user ∷ seen) l

add-distinct :
    (o : Option DesktopSession) (seen : List Text) (l : List DesktopSession)
    → IsNew seen o
    → DistinctUsers (see o seen) l
    → DistinctUsers seen (add_session o l)
add-distinct none seen l h k = k
add-distinct (some s) seen l h k = (h, k)

read-distinct :
    (round : List Text → List Text → Option DesktopSession)
    → ((seen l : List Text) → IsNew seen (round seen l))
    → (lines seen : List Text) → DistinctUsers seen (read_sessions round lines seen)
unfolding read_sessions
read-distinct round new [] seen = tt
read-distinct round new (ln ∷ lines) seen =
    add-distinct (round seen (fields ln)) seen _ (new seen (fields ln))
      (read-distinct round new lines (see (round seen (fields ln)) seen))

fallback-distinct : (env : Env) (r : Result Text) → DistinctUsers [] (fallback_sessions env r)
unfolding fallback_sessions
fallback-distinct env (err e) = tt
fallback-distinct env (ok out) =
    read-distinct (fallback_of env) (fallback-IsNew env) (split b'\n' (trim_space out)) []

listed-distinct : (env : Env) (r : Result Text) → DistinctUsers [] (listed_sessions env r)
unfolding listed_sessions
listed-distinct env (err e) = fallback-distinct env env.who
listed-distinct env (ok out) =
    read-distinct (session_of env) (session-IsNew env) (split b'\n' (trim_space out)) []

-- x
pub find_desktop_sessions-distinct : (env : Env) → DistinctUsers [] (find_desktop_sessions env)
unfolding find_desktop_sessions
find_desktop_sessions-distinct env = listed-distinct env env.list_sessions
