-- ===== src/Heartbeat/Steps.antt =====
-- cmd/service/main.go: what holds of the whole agent after any sequence of events.
use appcenter_agent_linux.Base.{
  ℤ, Bool, ◌&&◌, not, List, [], ◌∷◌, Option, none, some, arith, if_both,
}
use appcenter_agent_linux.Text.{Text, codes, is_empty, trim_space, to_lower}
use appcenter_agent_linux.Remote.Server.{RemoteSupportRequest}
use appcenter_agent_linux.Remote.Events
use appcenter_agent_linux.Remote.Events.{apply_event-Inv, enforce-Inv}
use appcenter_agent_linux.Tasks.Bounds
use appcenter_agent_linux.Tasks.Bounds.{IsSafe, run-IsSafe, process_commands-IsSafe}
use appcenter_agent_linux.SelfUpdate.{Offer}
use appcenter_agent_linux.ServerConfig.{Values}
use appcenter_agent_linux.Announcement.{Push}
use appcenter_agent_linux.Announcement.Tracked
use appcenter_agent_linux.Announcement.Tracked.{IsTracked, apply_event-IsTracked}
use appcenter_agent_linux.Heartbeat.{Host, Env, Around, apply_config}
use appcenter_agent_linux.Heartbeat.Callbacks.{
  Hello, hello_update, hello_config, on_server_hello, on_rs_request, on_rs_end, enforce,
  show_pending, on_config_patch, patch_update, broadcast_update, on_broadcast_self_update,
  on_inventory_sync_required, on_announcement_push,
}
use appcenter_agent_linux.Heartbeat.Loop.{
  Event, heartbeat, server_hello, server_command, rs_request, rs_end, config_patch,
  broadcast_self_update, inventory_sync_required, announcement_push, announcement_shown, hash_sent,
  hash_refreshed, worker_round, prompt_closed, vnc_exited, local_request, remote_event, step, tick,
  run,
}
use appcenter_agent_linux.Heartbeat.Global.{
  IsGood, pending-IsTracked, request-Inv, end-Inv, apply_config-IsGood, self_update-IsGood,
  check_self_update-IsGood, commands-IsGood, send_heartbeat-IsGood,
}

module _ (env : Env) where
  request-IsGood :
      (req : Option RemoteSupportRequest) (h : Host)
      → IsGood env h
      → IsGood env (on_rs_request env req h)
  unfolding on_rs_request
  request-IsGood req h g = record {
    remote = request-Inv env req h.remote g.remote;
    installer = g.installer;
    board = g.board;
  }

  end-IsGood : (id : Option ℤ) (h : Host) → IsGood env h → IsGood env (on_rs_end env id h)
  unfolding on_rs_end
  end-IsGood id h g = record {
    remote = end-Inv env id h.remote g.remote;
    installer = g.installer;
    board = g.board;
  }

  enforce-IsGood : (h : Host) → IsGood env h → IsGood env (enforce env h)
  unfolding enforce
  enforce-IsGood h g = record {
    remote = enforce-Inv env.remote h.remote g.remote;
    installer = g.installer;
    board = g.board;
  }

  show_pending-IsGood : (l : List Push) (h : Host) → IsGood env h → IsGood env (show_pending l h)
  unfolding show_pending
  show_pending-IsGood l h g = record {
    remote = g.remote;
    installer = g.installer;
    board = pending-IsTracked l h.board g.board;
  }

  hello_config-IsGood :
      (x : Around) (c : Option (Values × Option Offer)) (h : Host)
      → IsGood env h
      → IsGood env (hello_config x c h)
  unfolding hello_config hello_update
  hello_config-IsGood x none h g = g
  hello_config-IsGood x (some (m, none)) h g = apply_config-IsGood env m h g
  hello_config-IsGood x (some (m, some offer)) h g =
      check_self_update-IsGood env x offer (apply_config m h) (apply_config-IsGood env m h g)

  hello-IsGood :
      (x : Around) (m : Hello) (h : Host) → IsGood env h → IsGood env (on_server_hello env x m h)
  unfolding on_server_hello
  hello-IsGood x m h g = end-IsGood m.ended _ (
      request-IsGood m.request _ (
        commands-IsGood env m.commands _ (
          enforce-IsGood _
            (show_pending-IsGood m.pending_announcements _ (hello_config-IsGood x m.config h g)))))

  patch_update-IsGood :
      (x : Around) (o : Option Offer) (h : Host) → IsGood env h → IsGood env (patch_update x o h)
  unfolding patch_update
  patch_update-IsGood x none h g = g
  patch_update-IsGood x (some offer) h g =
      if_both (IsGood env)
        (not (is_empty offer.latest_agent_version) && not (is_empty offer.agent_download_url))
        (self_update-IsGood env x offer (codes "normal") h g) g

  patch-IsGood :
      (x : Around) (c : Option (Values × Option Offer)) (h : Host)
      → IsGood env h
      → IsGood env (on_config_patch env x c h)
  unfolding on_config_patch
  patch-IsGood x none h g = g
  patch-IsGood x (some (m, offer)) h g =
      patch_update-IsGood x offer _ (enforce-IsGood _ (apply_config-IsGood env m h g))

  broadcast-IsGood :
      (x : Around) (platform mode : Text) (o : Option Offer) (h : Host)
      → IsGood env h
      → IsGood env (on_broadcast_self_update x platform mode o h)
  unfolding on_broadcast_self_update broadcast_update
  broadcast-IsGood x platform mode none h g = g
  broadcast-IsGood x platform mode (some offer) h g =
      ground (arith, g, self_update-IsGood env x offer (trim_space (to_lower mode)) h g)

  remote_event-IsGood :
      (e : Events.Event) (h : Host) → IsGood env h → IsGood env (remote_event env e h)
  unfolding remote_event
  remote_event-IsGood e h g = record {
    remote = apply_event-Inv env.remote e h.remote g.remote;
    installer = g.installer;
    board = g.board;
  }

  push-IsGood : (p : Push) (h : Host) → IsGood env h → IsGood env (on_announcement_push p h)
  unfolding on_announcement_push Tracked.apply_event
  push-IsGood p h g = record {
    remote = g.remote;
    installer = g.installer;
    board = apply_event-IsTracked (Tracked.Event.pushes p) h.board g.board;
  }

  shown-IsGood :
      (id : ℤ) (sends : Bool) (h : Host)
      → IsGood env h
      → IsGood env (step env (announcement_shown id sends) h)
  unfolding step Tracked.apply_event
  shown-IsGood id sends h g = record {
    remote = g.remote;
    installer = g.installer;
    board = apply_event-IsTracked (Tracked.Event.finishes id sends) h.board g.board;
  }

  worker-IsGood : (h : Host) → IsGood env h → IsGood env (step env worker_round h)
  unfolding step Bounds.run Bounds.apply_event
  worker-IsGood h g = record {
    remote = g.remote;
    installer =
        run-IsSafe env.tasks env.limits (Bounds.Event.take_job ∷ []) h.installer g.installer;
    board = g.board;
  }

  step-IsGood : (e : Event) (h : Host) → IsGood env h → IsGood env (step env e h)
  unfolding step on_inventory_sync_required
  step-IsGood (heartbeat x) h g = send_heartbeat-IsGood env x h g
  step-IsGood (server_hello x m) h g = hello-IsGood x m h g
  step-IsGood (server_command cmds) h g = commands-IsGood env cmds h g
  step-IsGood (rs_request req) h g = request-IsGood req h g
  step-IsGood (rs_end id) h g = end-IsGood id h g
  step-IsGood (config_patch x c) h g = patch-IsGood x c h g
  step-IsGood (broadcast_self_update x platform mode offer) h g =
      broadcast-IsGood x platform mode offer h g
  step-IsGood inventory_sync_required h g = record {
    remote = g.remote;
    installer = g.installer;
    board = g.board;
  }
  step-IsGood (announcement_push p) h g = push-IsGood p h g
  step-IsGood (announcement_shown id sends) h g = shown-IsGood id sends h g
  step-IsGood (hash_sent x force) h g = record {
    remote = g.remote;
    installer = g.installer;
    board = g.board;
  }
  step-IsGood (hash_refreshed x force) h g = record {
    remote = g.remote;
    installer = g.installer;
    board = g.board;
  }
  step-IsGood worker_round h g = worker-IsGood h g
  step-IsGood (prompt_closed id r) h g = remote_event-IsGood (Events.Event.prompts id r) h g
  step-IsGood (vnc_exited pid exit) h g = remote_event-IsGood (Events.Event.exits pid exit) h g
  step-IsGood (local_request desk req) h g = remote_event-IsGood (Events.Event.calls desk req) h g

  tick-IsGood : (h : Host) → IsGood env h → IsGood env (tick h)
  tick-IsGood h g = record {
    remote = record { vnc = g.remote.vnc; has_id = g.remote.has_id };
    installer = g.installer;
    board = g.board;
  }

-- Whatever events follow, the parts of the agent stay well formed.
pub run-IsGood : (env : Env) (es : List Event) (h : Host) → IsGood env h → IsGood env (run env es h)
unfolding run
run-IsGood env [] h g = g
run-IsGood env (e ∷ es) h g =
    run-IsGood env es (step env e (tick h)) (step-IsGood env e (tick h) (tick-IsGood env h g))
