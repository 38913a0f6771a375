-- ===== src/Heartbeat/Callbacks.antt =====
-- cmd/service/main.go: the callbacks of the WebSocket client and the parsers of their payloads. A
-- payload has the values that are not null; `J` is a JSON value, and the decoders stand for
-- encoding/json.
use appcenter_agent_linux.Base.{
  ℤ, is_positive, Bool, true, not, ◌&&◌, ◌||◌, List, [], ◌∷◌, if◌then◌else◌, Option, none, some,
}
use appcenter_agent_linux.Text.{Text, codes, trim_space, to_lower, is_empty, same}
use appcenter_agent_linux.Remote.Server.{
  RemoteSupportRequest, enforce_remote_support_policy, handle_rs_request, handle_rs_end,
}
use appcenter_agent_linux.Tasks.Command.{Command}
use appcenter_agent_linux.Tasks.Queue.{process_commands}
use appcenter_agent_linux.SelfUpdate.{Offer}
use appcenter_agent_linux.ServerConfig.{Values}
use appcenter_agent_linux.Announcement.{
  Push, handle_announcement_push, process_pending_announcements,
}
use appcenter_agent_linux.Heartbeat.{
  Host, Env, Around, apply_config, self_update, check_self_update,
}

-- What encoding/json makes of a value; `whole` is a payload as a value.
pub record Decoder (J : Type 0) : Type 0 where
  pub whole : List (Text × J) → J
  pub commands : J → Option (List Command)
  pub request : J → Option RemoteSupportRequest
  pub ended : J → Option ℤ

-- A session id that the parsers let through
unfoldable pub positive_request : Option RemoteSupportRequest → Option RemoteSupportRequest
positive_request none = none
positive_request (some req) = if is_positive req.session_id then some req else none

unfoldable pub positive_end : Option ℤ → Option ℤ
positive_end none = none
positive_end (some id) = if is_positive id then some id else none

module _ {J : Type 0} where
  -- payload[key]
  unfoldable pub field : Text → List (Text × J) → Option J
  unfolding same
  field key [] = none
  field key ((k, v) ∷ m) = let later = field key m in if same k key then some v else later

  -- The first of two values that is there
  unfoldable pub or_value : Option J → Option J → Option J
  or_value (some v) w = some v
  or_value none w = w

  unfoldable pub or_whole : Decoder J → List (Text × J) → Option J → J
  or_whole dec payload (some v) = v
  or_whole dec payload none = dec.whole payload

  unfoldable pub decoded_commands : Decoder J → Option J → List Command
  decoded_commands dec none = []
  decoded_commands dec (some v) = elim (dec.commands v) [ none ↦ [] | some l ↦ l ]

  -- parseCommandsFromPayload
  unfoldable pub parse_commands_from_payload : Decoder J → List (Text × J) → List Command
  unfolding field or_value decoded_commands
  parse_commands_from_payload dec payload =
      decoded_commands dec
        (or_value (field (codes "commands") payload) (field (codes "pending_commands") payload))

  -- parseRSRequestFromPayload
  unfoldable pub parse_rs_request_from_payload :
      Decoder J → List (Text × J) → Option RemoteSupportRequest
  unfolding field or_value or_whole positive_request
  parse_rs_request_from_payload dec [] = none
  parse_rs_request_from_payload dec (v ∷ m) =
      let payload = v ∷ m in
      positive_request (
        dec.request (
          or_whole dec payload (
            or_value (field (codes "remote_support_request") payload) (
              or_value (field (codes "pending_rs_request") payload)
                (field (codes "remote_support") payload)))))

  -- parseRSEndFromPayload: the session id of the message
  unfoldable pub parse_rs_end_from_payload : Decoder J → List (Text × J) → Option ℤ
  unfolding field or_value or_whole positive_end
  parse_rs_end_from_payload dec [] = none
  parse_rs_end_from_payload dec (v ∷ m) =
      let payload = v ∷ m in
      positive_end (
        dec.ended (
          or_whole dec payload (
            or_value (field (codes "remote_support_end") payload)
              (field (codes "pending_rs_end") payload))))

-- A `server.hello`: its configuration, with the offer where it is not empty, and the parsed rest
pub record Hello : Type 0 where
  pub config : Option (Values × Option Offer)
  pub pending_announcements : List Push
  pub commands : List Command
  pub request : Option RemoteSupportRequest
  pub ended : Option ℤ

-- The self-update check of OnServerHello, whose result is not used
unfoldable pub hello_update : Around → Option Offer → Host → Host
unfolding check_self_update
hello_update x none h = h
hello_update x (some offer) h = (check_self_update x offer h).1

unfoldable pub hello_config : Around → Option (Values × Option Offer) → Host → Host
unfolding apply_config hello_update
hello_config x none h = h
hello_config x (some (m, offer)) h = hello_update x offer (apply_config m h)

-- OnServerCommand
unfoldable pub on_server_command : Env → List Command → Host → Host
unfolding process_commands
on_server_command env commands h = record h {
  installer = process_commands env.tasks env.limits commands h.installer;
}

-- OnRSRequest
unfoldable pub on_rs_request : Env → Option RemoteSupportRequest → Host → Host
unfolding handle_rs_request
on_rs_request env req h = record h { remote = handle_rs_request env.remote req h.remote }

-- OnRSEnd
unfoldable pub on_rs_end : Env → Option ℤ → Host → Host
unfolding handle_rs_end
on_rs_end env id h = record h { remote = handle_rs_end env.remote id h.remote }

-- enforceRemoteSupportPolicy
unfoldable pub enforce : Env → Host → Host
unfolding enforce_remote_support_policy
enforce env h = record h { remote = (enforce_remote_support_policy env.remote h.remote).0 }

unfoldable pub show_pending : List Push → Host → Host
unfolding process_pending_announcements
show_pending l h = record h { board = process_pending_announcements l h.board }

-- OnServerHello
unfoldable pub on_server_hello : Env → Around → Hello → Host → Host
unfolding hello_config show_pending enforce on_server_command on_rs_request on_rs_end
on_server_hello env x m h = on_rs_end env m.ended (
    on_rs_request env m.request (
      on_server_command env m.commands
        (enforce env (show_pending m.pending_announcements (hello_config x m.config h)))))

-- The self-update of OnConfigPatch
unfoldable pub patch_update : Around → Option Offer → Host → Host
unfolding self_update
patch_update x none h = h
patch_update x (some offer) h =
    if not (is_empty offer.latest_agent_version) && not (is_empty offer.agent_download_url)
    then (self_update x offer (codes "normal") h).1
    else h

-- OnConfigPatch, with the changes of the payload and their offer
unfoldable pub on_config_patch : Env → Around → Option (Values × Option Offer) → Host → Host
unfolding apply_config enforce patch_update
on_config_patch env x none h = h
on_config_patch env x (some (m, offer)) h = patch_update x offer (enforce env (apply_config m h))

-- isPayloadForCurrentPlatform, with the platform of the payload; GOOS is linux.
unfoldable pub is_payload_for_current_platform : Text → Bool
unfolding trim_space to_lower same
is_payload_for_current_platform platform =
    let target = trim_space (to_lower platform) in is_empty target || same target (codes "linux")

unfoldable pub broadcast_update : Around → Text → Offer → Host → Host
unfolding self_update
broadcast_update x mode offer h =
    if is_empty offer.latest_agent_version
      || (is_empty offer.agent_download_url || is_empty offer.agent_hash)
    then h
    else (self_update x offer (trim_space (to_lower mode)) h).1

-- OnBroadcastSelfUpdate, with the platform and the mode of the payload and its offer
unfoldable pub on_broadcast_self_update : Around → Text → Text → Option Offer → Host → Host
unfolding broadcast_update is_payload_for_current_platform
on_broadcast_self_update x platform mode none h = h
on_broadcast_self_update x platform mode (some offer) h =
    if is_payload_for_current_platform platform then broadcast_update x mode offer h else h

-- OnInventorySyncRequired, up to its signal
unfoldable pub on_inventory_sync_required : Host → Host
on_inventory_sync_required h = record h {
  settings = record (h.settings) { inventory_is_due = true };
}

-- OnAnnouncementPush
unfoldable pub on_announcement_push : Push → Host → Host
unfolding handle_announcement_push
on_announcement_push p h = record h { board = handle_announcement_push p h.board }
