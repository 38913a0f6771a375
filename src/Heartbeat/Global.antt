-- ===== src/Heartbeat/Global.antt =====
-- cmd/service/main.go: what holds of the whole agent through a heartbeat.
use appcenter_agent_linux.Base.{
  ℤ, Bool, true, false, ◌||◌, List, [], ◌∷◌, Option, none, some, if_both, ltb,
}
use appcenter_agent_linux.Text.{Text, is_empty}
use appcenter_agent_linux.Api.{Result, ok, err}
use appcenter_agent_linux.Remote.{Agent}
use appcenter_agent_linux.Remote.Server.{
  RemoteSupportRequest, handle_rs_request, handle_rs_end, check_daemon,
}
use appcenter_agent_linux.Remote.Invariant.{Inv}
use appcenter_agent_linux.Remote.Events
use appcenter_agent_linux.Remote.Events.{apply_event-Inv, enforce-Inv}
use appcenter_agent_linux.Tasks.Command.{Command}
use appcenter_agent_linux.Tasks.Bounds.{IsSafe, process_commands-IsSafe}
use appcenter_agent_linux.SelfUpdate.{Offer}
use appcenter_agent_linux.ServerConfig.{Values}
use appcenter_agent_linux.Inventory.Sync.{Inventory, sync_inventory}
use appcenter_agent_linux.Announcement.{
  Board, Push, process_pending_announcements, handle_announcement_push,
}
use appcenter_agent_linux.Announcement.Tracked
use appcenter_agent_linux.Announcement.Tracked.{IsTracked, apply_event-IsTracked}
use appcenter_agent_linux.Heartbeat.{
  Host, Env, Around, HeartbeatResponse, apply_config, self_update, check_self_update, synced,
  sync_if_due, remote_messages, take_response, answered, beat, registered, send_heartbeat,
}
use appcenter_agent_linux.Heartbeat.Config.{heartbeat_config_to_map}
use appcenter_agent_linux.Heartbeat.Callbacks.{on_server_command}

-- The parts of the agent are well formed: an open session has its id and x11vnc's status agrees with
-- its process, the queue holds accepted commands within its capacity and only checked packages were
-- installed, and each announcement that is tracked is shown.
pub record IsGood (env : Env) (h : Host) : Type 0 where
  pub remote : Inv h.remote
  pub installer : IsSafe env.tasks env.limits h.installer
  pub board : IsTracked h.board

pub pending-IsTracked :
    (l : List Push) (b : Board) → IsTracked b → IsTracked (process_pending_announcements l b)
unfolding process_pending_announcements Tracked.apply_event
pending-IsTracked [] b v = v
pending-IsTracked (p ∷ l) b v =
    pending-IsTracked l (handle_announcement_push p b)
      (apply_event-IsTracked (Tracked.Event.pushes p) b v)

module _ (env : Env) where
  remote_event-Inv :
      (e : Events.Event) (a : Agent) → Inv a → Inv (Events.apply_event env.remote e a)
  remote_event-Inv e a v = apply_event-Inv env.remote e a v

  pub request-Inv :
      (req : Option RemoteSupportRequest) (a : Agent)
      → Inv a
      → Inv (handle_rs_request env.remote req a)
  unfolding handle_rs_request Events.apply_event
  request-Inv none a v = v
  request-Inv (some req) a v = remote_event-Inv (Events.Event.requests req) a v

  pub end-Inv : (id : Option ℤ) (a : Agent) → Inv a → Inv (handle_rs_end env.remote id a)
  unfolding handle_rs_end Events.apply_event
  end-Inv none a v = v
  end-Inv (some id) a v = remote_event-Inv (Events.Event.ends id) a v

  check_daemon-Inv : (a : Agent) → Inv a → Inv (check_daemon env.remote a)
  unfolding Events.apply_event
  check_daemon-Inv a v = remote_event-Inv Events.Event.beats a v

  remote_messages-Inv :
      (req : Option RemoteSupportRequest) (id : Option ℤ) (a : Agent)
      → Inv a
      → Inv (remote_messages env.remote req id a)
  unfolding remote_messages
  remote_messages-Inv req id a v = end-Inv id _ (request-Inv req _ (enforce-Inv env.remote a v))

  -- A change of other variables alone
  pub apply_config-IsGood : (m : Values) (h : Host) → IsGood env h → IsGood env (apply_config m h)
  unfolding apply_config
  apply_config-IsGood m h g = record {
    remote = record { vnc = g.remote.vnc; has_id = g.remote.has_id };
    installer = g.installer;
    board = g.board;
  }

  pub self_update-IsGood :
      (x : Around) (offer : Offer) (mode : Text) (h : Host)
      → IsGood env h
      → IsGood env (self_update x offer mode h).1
  unfolding self_update
  self_update-IsGood x offer mode h g = record {
    remote = g.remote;
    installer = g.installer;
    board = g.board;
  }

  pub check_self_update-IsGood :
      (x : Around) (offer : Offer) (h : Host)
      → IsGood env h
      → IsGood env (check_self_update x offer h).1
  unfolding check_self_update self_update
  check_self_update-IsGood x offer h g =
      if_both (λ (r : Bool × Host). IsGood env r.1)
        (ltb h.next_self_update_check x.update_checked_at)
        (record { remote = g.remote; installer = g.installer; board = g.board }) g

  synced-IsGood :
      (x : Around) (r : Bool × Inventory) (h : Host) → IsGood env h → IsGood env (synced x r h)
  unfolding synced
  synced-IsGood x (true, inv) h g = record {
    remote = g.remote;
    installer = g.installer;
    board = g.board;
  }
  synced-IsGood x (false, inv) h g = record {
    remote = g.remote;
    installer = g.installer;
    board = g.board;
  }

  sync_if_due-IsGood : (x : Around) (h : Host) → IsGood env h → IsGood env (sync_if_due x h)
  unfolding sync_if_due
  sync_if_due-IsGood x h g =
      if_both (IsGood env)
        (h.settings.inventory_is_due || ltb h.next_inventory_sync x.inventory_checked_at)
        (synced-IsGood x (sync_inventory x.inventory h.settings.inventory_force_sync h.inventory) h
          g)
        g

  pub commands-IsGood :
      (cmds : List Command) (h : Host) → IsGood env h → IsGood env (on_server_command env cmds h)
  unfolding on_server_command
  commands-IsGood cmds h g = record {
    remote = g.remote;
    installer = process_commands-IsSafe env.tasks env.limits cmds h.installer g.installer;
    board = g.board;
  }

  take_response-IsGood :
      (x : Around) (resp : HeartbeatResponse) (r : Bool × Host)
      → IsGood env r.1
      → IsGood env (take_response env x resp r)
  unfolding take_response on_server_command
  take_response-IsGood x resp (true, h) g = g
  take_response-IsGood x resp (false, h) g = commands-IsGood resp.commands _ (
      sync_if_due-IsGood x
        (record h {
          remote =
              remote_messages env.remote resp.remote_support_request resp.remote_support_end
                h.remote;
          board = process_pending_announcements resp.pending_announcements h.board;
        })
        (record {
          remote =
              remote_messages-Inv resp.remote_support_request resp.remote_support_end h.remote
                g.remote;
          installer = g.installer;
          board = pending-IsTracked resp.pending_announcements h.board g.board;
        }))

  answered-IsGood :
      (x : Around) (r : Result HeartbeatResponse) (h : Host)
      → IsGood env h
      → IsGood env (answered env x r h)
  unfolding answered
  answered-IsGood x (err e) h g = g
  answered-IsGood x (ok resp) h g =
      take_response-IsGood x resp
        (check_self_update x resp.config.offer
          (apply_config (heartbeat_config_to_map resp.config) h))
        (check_self_update-IsGood x resp.config.offer _
          (apply_config-IsGood (heartbeat_config_to_map resp.config) h g))

  beat-IsGood : (x : Around) (h : Host) → IsGood env h → IsGood env (beat env x h)
  unfolding beat
  beat-IsGood x h g = answered-IsGood x _ _ (record {
    remote = check_daemon-Inv h.remote g.remote;
    installer = g.installer;
    board = g.board;
  })

  registered-IsGood :
      (x : Around) (r : Result Text) (h : Host) → IsGood env h → IsGood env (registered env x r h)
  unfolding registered
  registered-IsGood x (err e) h g = g
  registered-IsGood x (ok secret) h g =
      beat-IsGood x (record h { remote = record (h.remote) { secret_key = secret } })
        (record {
          remote = record { vnc = g.remote.vnc; has_id = g.remote.has_id };
          installer = g.installer;
          board = g.board;
        })

  pub send_heartbeat-IsGood :
      (x : Around) (h : Host) → IsGood env h → IsGood env (send_heartbeat env x h)
  unfolding send_heartbeat
  send_heartbeat-IsGood x h g =
      if_both (IsGood env) (is_empty h.remote.secret_key) (registered-IsGood x x.register h g)
        (beat-IsGood x h g)
