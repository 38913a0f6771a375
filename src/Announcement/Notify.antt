-- ===== src/Announcement/Notify.antt =====
-- internal/announcement/notify_linux.go: who sees a notification, and by which program. loginctl, who,
-- id, the file system and sudo are parameters.
use appcenter_agent_linux.Base.{
  ◌++◌, Bool, false, ◌&&◌, ◌||◌, List, [], ◌∷◌, if◌then◌else◌, Option, none, some, ◌≡◌, refl,
}
use appcenter_agent_linux.Text.{Text, codes, trim_space, to_lower, is_empty, same}
use appcenter_agent_linux.Text.Split.{split, cut, fields}
use appcenter_agent_linux.Api.{Result, ok, err}
use appcenter_agent_linux.Services.{put, text_at, is_one_of}

pub record DesktopSession : Type 0 where
  pub user : Text
  pub uid : Text
  pub display : Text
  pub dbus : Text

pub record Env : Type 0 where
  pub list_sessions : Result Text
  pub show_session : Text → Result Text
  pub who : Result Text
  pub id_of : Text → Result Text
  -- os.Stat without an error
  pub exists : Text → Bool
  -- tryExecAsUser: the user, the environment, the program and its arguments
  pub try_exec : Text → List Text → Text → List Text → Bool

-- A property of one line; a line that begins with `=` or has none gives none.
unfoldable pub add_prop : Option (Text × Text) → List (Text × Text) → List (Text × Text)
unfolding put trim_space
add_prop none props = props
add_prop (some ([], v)) props = props
add_prop (some (c ∷ k, v)) props = put (trim_space (c ∷ k)) (trim_space v) props

unfoldable pub read_props : List Text → List (Text × Text) → List (Text × Text)
unfolding add_prop cut
read_props [] props = props
read_props (ln ∷ lines) props = read_props lines (add_prop (cut b'=' ln) props)

-- parseLoginctlProps
unfoldable pub parse_loginctl_props : Text → List (Text × Text)
unfolding read_props split
parse_loginctl_props output = read_props (split b'\n' output) []

-- findDBusAddr; filepath.Join of these two is the path with a slash between.
unfoldable pub find_dbus_addr : Env → Text → Text
find_dbus_addr env uid =
    let bus_path = codes "/run/user/" ++ (uid ++ codes "/bus") in
    if env.exists bus_path then codes "unix:path=" ++ bus_path else []

-- A graphical session that is active
unfoldable pub is_desktop : List (Text × Text) → Bool
unfolding is_one_of text_at same
is_desktop props =
    is_one_of (text_at (codes "Type") props) (codes "x11" ∷ codes "wayland" ∷ codes "mir" ∷ [])
    && (same (text_at (codes "State") props) (codes "active")
        || same (text_at (codes "Active") props) (codes "yes"))

unfoldable pub desktop_session : Env → Text → List (Text × Text) → Option DesktopSession
unfolding is_desktop text_at find_dbus_addr
desktop_session env user props =
    let display = text_at (codes "Display") props in
    let uid = text_at (codes "User") props in
    if is_desktop props
    then some (record {
      user = user;
      uid = uid;
      display = if is_empty display then codes ":0" else display;
      dbus = find_dbus_addr env uid;
    })
    else none

unfoldable pub shown_session : Env → Text → Result Text → Option DesktopSession
unfolding desktop_session parse_loginctl_props
shown_session env user (err e) = none
shown_session env user (ok detail) = desktop_session env user (parse_loginctl_props detail)

-- One round of findDesktopSessions, with the fields of the line
unfoldable pub session_of : Env → List Text → List Text → Option DesktopSession
unfolding shown_session is_one_of
session_of env seen (id ∷ b ∷ user ∷ rest) =
    if is_one_of user seen then none else shown_session env user (env.show_session id)
session_of env seen _ = none

unfoldable pub fallback_id : Env → Text → Result Text → Option DesktopSession
unfolding find_dbus_addr trim_space
fallback_id env user (err e) = none
fallback_id env user (ok out) = some (record {
  user = user;
  uid = trim_space out;
  display = codes ":0";
  dbus = find_dbus_addr env (trim_space out);
})

-- One round of findDesktopSessionsFallback, with the fields of the line
unfoldable pub fallback_of : Env → List Text → List Text → Option DesktopSession
unfolding fallback_id is_one_of same
fallback_of env seen (user ∷ b ∷ rest) =
    if is_one_of user seen || same user (codes "root")
    then none
    else fallback_id env user (env.id_of user)
fallback_of env seen _ = none

abbrev pub see : Option DesktopSession → List Text → List Text
see none seen = seen
see (some s) seen = s.user ∷ seen

abbrev pub add_session : Option DesktopSession → List DesktopSession → List DesktopSession
add_session none l = l
add_session (some s) l = s ∷ l

-- The loop over the lines, with the users seen so far
unfoldable pub read_sessions :
    (List Text → List Text → Option DesktopSession) → List Text → List Text → List DesktopSession
unfolding fields
read_sessions round [] seen = []
read_sessions round (ln ∷ lines) seen =
    let o = round seen (fields ln) in add_session o (read_sessions round lines (see o seen))

unfoldable pub fallback_sessions : Env → Result Text → List DesktopSession
unfolding read_sessions fallback_of split trim_space
fallback_sessions env (err e) = []
fallback_sessions env (ok out) = read_sessions (fallback_of env) (split b'\n' (trim_space out)) []

unfoldable pub listed_sessions : Env → Result Text → List DesktopSession
unfolding read_sessions session_of split trim_space fallback_sessions
listed_sessions env (err e) = fallback_sessions env env.who
listed_sessions env (ok out) = read_sessions (session_of env) (split b'\n' (trim_space out)) []

-- findDesktopSessions
unfoldable pub find_desktop_sessions : Env → List DesktopSession
unfolding listed_sessions
find_desktop_sessions env = listed_sessions env env.list_sessions

-- The variables of a session's environment
unfoldable pub session_env : DesktopSession → List Text
session_env s =
    (codes "DISPLAY=" ++ s.display)
    ∷ (codes "XDG_RUNTIME_DIR=/run/user/" ++ s.uid)
    ∷ ((if is_empty s.dbus then [] else (codes "DBUS_SESSION_BUS_ADDRESS=" ++ s.dbus) ∷ [])
        ++ (codes "HOME=/home/" ++ s.user) ∷ [])

unfoldable pub urgency : Text → Text
unfolding is_one_of trim_space to_lower
urgency priority =
    if is_one_of (to_lower (trim_space priority)) (codes "important" ∷ codes "critical" ∷ [])
    then codes "critical"
    else codes "normal"

-- showToSession: the programs in turn, until one has run
unfoldable pub show_to_session : Env → DesktopSession → Text → Text → Text → Bool
unfolding session_env urgency
show_to_session env s title message priority =
    let try = env.try_exec s.user (session_env s) in
    try (codes "zenity") (
      codes "--info"
      ∷ (codes "--title=" ++ title)
      ∷ (codes "--text=" ++ message)
      ∷ codes "--width=400"
      ∷ [])
    || (try (codes "notify-send") (codes "-u" ∷ urgency priority ∷ title ∷ message ∷ [])
        || try (codes "xmessage") (codes "-center" ∷ (title ++ (codes "\n\n" ++ message)) ∷ []))

unfoldable pub show_to_all : Env → List DesktopSession → Text → Text → Text → Bool
unfolding show_to_session
show_to_all env [] title message priority = false
show_to_all env (s ∷ l) title message priority =
    let rest = show_to_all env l title message priority in
    show_to_session env s title message priority || rest

abbrev or_text : Text → Text → Text
or_text s d = if is_empty (trim_space s) then d else trim_space s

-- ShowNotification: whether anybody saw it
unfoldable pub show_notification : Env → Text → Text → Text → Bool
unfolding show_to_all find_desktop_sessions trim_space
show_notification env title message priority =
    show_to_all env (find_desktop_sessions env) (or_text title (codes "Announcement"))
      (or_text message (codes "(empty message)")) priority

two_props :
    parse_loginctl_props (codes "Type=x11\n=no\nState= active")
    ≡ (codes "Type", codes "x11") ∷ (codes "State", codes "active") ∷ []
unfolding parse_loginctl_props trim_space
two_props = refl
