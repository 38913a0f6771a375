-- ===== src/Ws.antt =====
-- internal/wsconn/client.go: the address, the reconnecting loop and the handshake. The network is a
-- parameter. Times are nanoseconds, and a draw
-- of rand.Float64 is the number of its steps of 2^-53, a parameter.
pub mod Waits
pub mod Handshake
use appcenter_agent_linux.Base.{
  ℕ, ◌+◌, ◌*◌, ◌/◌, ◌^◌, ◌++◌, ℤ, is_positive, pos_part, Bool, true, false, not, List, [], ◌∷◌,
  if◌then◌else◌, Option, none, some, min,
}
use appcenter_agent_linux.Text.{
  Text, codes, is_empty, trim_right_slash, has_prefix, trim_prefix, same,
}
use appcenter_agent_linux.Api.{Error, message, error_text, Result, ok, err}
use appcenter_agent_linux.Dedup.{second}

-- deriveWSURL
unfoldable pub derive_ws_url : Text → Text → Text
derive_ws_url server_url ws_url =
    let base = trim_right_slash server_url in
    if is_empty ws_url
    then (if has_prefix base (codes "https://")
        then codes "wss://" ++ trim_prefix base (codes "https://")
        else codes "ws://" ++ trim_prefix base (codes "http://"))
      ++ codes "/api/v1/agent/ws"
    else ws_url

-- The two fields of `Client` that the loop reads
pub record Backoff : Type 0 where
  pub reconnect_min : ℕ
  pub reconnect_max : ℕ

-- The defaults of NewClient
unfoldable pub new_backoff : ℤ → ℤ → Backoff
new_backoff min_sec max_sec = record {
  reconnect_min = (if is_positive min_sec then pos_part min_sec else 2) * second;
  reconnect_max = (if is_positive max_sec then pos_part max_sec else 60) * second;
}

abbrev pub float_steps : ℕ
float_steps = 2 ^ 53

-- time.Duration(float64(backoff) * (0.75 + 0.5*rand.Float64())), for a draw of `k` steps. The rounding
-- of the float64 product before the cut to an integer is left out; below 2^50 nanoseconds it does not
-- leave the range of the factor.
unfoldable pub jitter : ℕ → ℕ → ℕ
jitter backoff k = backoff * (3 * float_steps + 2 * k) / (4 * float_steps)

-- One round of Run: the wait after a connection that failed (`true`) or served, for a draw, and the
-- next backoff. Doubling in float64 is exact below 2^52 nanoseconds.
unfoldable pub round : Backoff → Bool × ℕ → ℕ → ℕ × ℕ
unfolding jitter
round c (true, k) backoff = (jitter backoff k, min (backoff * 2) c.reconnect_max)
round c (false, k) backoff = (jitter c.reconnect_min k, c.reconnect_min)

-- Run until the context ends: the waits, for the results of the connections and the draws
unfoldable pub waits : Backoff → List (Bool × ℕ) → ℕ → List ℕ
unfolding round
waits c [] backoff = []
waits c (x ∷ rest) backoff = let r = round c x backoff in r.0 ∷ waits c rest r.1

unfoldable pub run : Backoff → List (Bool × ℕ) → List ℕ
unfolding waits
run c results = waits c results c.reconnect_min

-- What a message of the server says to the handshake
pub record Message : Type 0 where
  pub kind : Text
  -- payload["ok"] and payload["error"], where these have the right type
  pub ok_field : Bool
  pub error_field : Text

-- The calls of connectAndServe, by their results
pub record Network : Type 0 where
  pub dial : Option Error
  pub send_auth : Option Error
  pub read_auth : Result Message
  pub send_hello : Option Error
  pub read_hello : Result Message
  -- the message loop, and whether the context has ended after it
  pub message_loop : Option Error
  pub is_done : Bool

-- What connectAndServe does, in order
pub data Action : Type 0 where
  dialed : Action
  sent_auth : Action
  sent_hello : Action
  called_server_hello : Action
  called_connected : Action
  served : Action
  closed : Action

-- What is wrong with the answer to agent.auth
unfoldable pub auth_error : Message → Option Error
auth_error m =
    if same m.kind (codes "server.auth.result")
    then (if m.ok_field then none else some (message (codes "auth rejected: " ++ m.error_field)))
    else if same m.kind (codes "server.auth.ok")
    then none
    else some (message (codes "unexpected auth response type: " ++ m.kind))

abbrev pub wrapped : Text → Error → Option Error
wrapped prefix e = some (message (prefix ++ codes ": " ++ error_text e))

-- The result of the message loop
unfoldable pub loop_result : Bool → Option Error → Option Error
loop_result done none = none
loop_result done (some e) = if done then some e else none

-- From the reply to agent.hello on
unfoldable pub serve : Network → Result Message → Option Error × List Action
unfolding loop_result
serve net (err e) = (wrapped (codes "read hello response") e, [])
serve net (ok m) = (
  loop_result net.is_done net.message_loop,
  if same m.kind (codes "server.hello")
      then called_server_hello ∷ called_connected ∷ served ∷ []
      else called_connected ∷ served ∷ [],
)

abbrev pub before : Action → Option Error × List Action → Option Error × List Action
before a (e, actions) = (e, a ∷ actions)

unfoldable pub say_hello : Network → Option Error → Option Error × List Action
unfolding serve
say_hello net (some e) = (wrapped (codes "send hello") e, [])
say_hello net none = before sent_hello (serve net net.read_hello)

unfoldable pub check_auth : Network → Option Error → Option Error × List Action
unfolding say_hello
check_auth net (some e) = (some e, [])
check_auth net none = say_hello net net.send_hello

unfoldable pub await_auth : Network → Result Message → Option Error × List Action
unfolding check_auth auth_error
await_auth net (err e) = (wrapped (codes "read auth response") e, [])
await_auth net (ok m) = check_auth net (auth_error m)

unfoldable pub authenticate : Network → Option Error → Option Error × List Action
unfolding await_auth
authenticate net (some e) = (wrapped (codes "send auth") e, [])
authenticate net none = before sent_auth (await_auth net net.read_auth)

-- The deferred close of an open connection
unfoldable pub with_close : Option Error × List Action → Option Error × List Action
with_close (e, actions) = (e, dialed ∷ actions ++ closed ∷ [])

unfoldable pub connect : Network → Option Error → Option Error × List Action
unfolding authenticate with_close
connect net (some e) = (wrapped (codes "dial") e, [])
connect net none = with_close (authenticate net net.send_auth)

-- connectAndServe: the error and what was done
unfoldable pub connect_and_serve : Network → Option Error × List Action
unfolding connect
connect_and_serve net = connect net net.dial

-- The callbacks of a message; a name has `On` dropped.
pub data Callback : Type 0 where
  pong : Callback
  signal : Callback
  server_hello : Callback
  server_command : Callback
  rs_request : Callback
  rs_end : Callback
  config_patch : Callback
  inventory_sync_required : Callback
  broadcast_restart : Callback
  broadcast_self_update : Callback
  announcement_push : Callback

-- The cases of messageLoop, in the code's order
abbrev pub cases : List (Text × Callback)
cases =
    (codes "server.ping", pong)
    ∷ (codes "server.signal", signal)
    ∷ (codes "server.hello", server_hello)
    ∷ (codes "server.command.dispatch", server_command)
    ∷ (codes "server.rs.request", rs_request)
    ∷ (codes "server.rs.end", rs_end)
    ∷ (codes "server.config.patch", config_patch)
    ∷ (codes "server.inventory.sync_required", inventory_sync_required)
    ∷ (codes "server.broadcast.restart", broadcast_restart)
    ∷ (codes "server.broadcast.self_update", broadcast_self_update)
    ∷ (codes "server.announcement.push", announcement_push)
    ∷ []

-- The first case of a message's type
unfoldable pub find_case : Text → List (Text × Callback) → Option Callback
find_case kind [] = none
find_case kind ((name, callback) ∷ rest) =
    let later = find_case kind rest in if same kind name then some callback else later

-- What messageLoop does with a message of the given type; `none` is a message that is only logged.
unfoldable pub dispatch : Text → Option Callback
unfolding find_case
dispatch kind = find_case kind cases
