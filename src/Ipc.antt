-- ===== src/Ipc.antt =====
-- internal/ipc/unixsocket_linux.go: one exchange over the local socket. Reading the line and
-- `json.Unmarshal` are parameters; the payload of a response is that of the handler in
-- cmd/service/main.go.
pub mod Handler
pub mod Effects
pub mod Quiet
pub mod Saved
use appcenter_agent_linux.Base.{
  ℕ, ℤ, ◌≡◌, refl, Bool, true, false, List, [], ◌∷◌, if◌then◌else◌, Option, none, some,
}
use appcenter_agent_linux.Text.{Text, codes, trim_space, to_lower, same, is_empty}
use appcenter_agent_linux.Api.{Error, error_text, Result, ok, err}
use appcenter_agent_linux.Session.{SessionStatus}
use appcenter_agent_linux.Vnc

pub record Request : Type 0 where
  pub action : Text
  pub app_id : ℤ
  pub session_id : ℤ
  pub admin_name : Text
  pub reason : Text
  pub monitor_count : ℤ

-- internal/api/client.go: `StoreApp`
pub record StoreApp : Type 0 where
  pub id : ℤ
  pub display_name : Text
  pub version : Text
  pub installed : Bool
  pub install_state : Text
  pub installed_version : Text
  pub can_uninstall : Bool

-- What a handler puts under `data`
pub data Payload : Type 0 where
  nothing : Payload
  apps : List StoreApp → Payload
  environment : Vnc.EnvInfo → Payload
  session : SessionStatus → Payload
  daemon : Vnc.Status → Payload
  snapshot : SessionStatus → Vnc.Status → Bool → Bool → Payload

-- The two values of Response.Status
pub data Outcome : Type 0 where
  done : Outcome
  failure : Outcome

-- `error` is empty where the code leaves it out.
pub record Response : Type 0 where
  pub status : Outcome
  pub code : Text
  pub message : Text
  pub error : Text
  pub payload : Payload

-- okResp
unfoldable pub ok_resp : Text → Text → Payload → Response
ok_resp message code payload = record {
  status = done;
  code = if is_empty (trim_space code) then codes "ok" else code;
  message = message;
  error = [];
  payload = payload;
}

-- What errResp reports as the error
unfoldable pub resp_error : Text → Option Error → Text
resp_error message (some e) = error_text e
resp_error message none = if is_empty (trim_space message) then [] else message

-- errResp
unfoldable pub err_resp : Text → Text → Option Error → Payload → Response
unfolding resp_error
err_resp message code e payload = record {
  status = failure;
  code = if is_empty (trim_space code) then codes "internal_error" else code;
  message = message;
  error = resp_error message e;
  payload = payload;
}

-- A response of handleConn that no handler made
unfoldable pub bare_error : Text → Response
bare_error e = record { status = failure; code = []; message = []; error = e; payload = nothing }

-- What `switch strings.ToLower(strings.TrimSpace(req.Action))` compares
unfoldable pub action_name : Text → Text
unfolding trim_space to_lower
action_name action = to_lower (trim_space action)

-- defaultHandler
unfoldable pub default_handler : Request → Response
unfolding action_name same
default_handler req =
    if same (action_name req.action) (codes "ping")
    then record {
      status = done;
      code = codes "ok";
      message = codes "pong";
      error = [];
      payload = nothing;
    }
    else record {
      status = failure;
      code = codes "unsupported_action";
      message = codes "unsupported action";
      error = codes "unsupported action";
      payload = nothing;
    }

-- The handler of `Start` over a state, where there is one
unfoldable pub respond {ℓ} :
    {S : Type ℓ} → Option (Request → S → S × Response) → Request → S → S × Response
unfolding default_handler
respond none req s = (s, default_handler req)
respond (some handler) req s = handler req s

-- handleConn after the line is read, `unmarshal` being `json.Unmarshal` into a `Request`
unfoldable pub handle_line {ℓ} :
    {S : Type ℓ}
    → (Text → Result Request)
    → Option (Request → S → S × Response)
    → Text
    → S
    → S × Response
unfolding respond bare_error
handle_line unmarshal handler ln s = elim (unmarshal (trim_space ln)) [
  | err e ↦ (s, bare_error (codes "invalid json"))
  | ok req ↦ respond handler req s
]

-- handleConn: the state after it and the response that it writes, by what ReadBytes gives
unfoldable pub handle_conn {ℓ} :
    {S : Type ℓ}
    → (Text → Result Request)
    → Option (Request → S → S × Response)
    → Result Text
    → S
    → S × Response
unfolding handle_line
handle_conn unmarshal handler (err e) s = (s, bare_error (codes "read request failed"))
handle_conn unmarshal handler (ok ln) s = handle_line unmarshal handler ln s
