-- ===== src/Startup/Ready.antt =====
-- cmd/service/main.go: what holds of the agent from its start on.
use appcenter_agent_linux.Base.{
  is_positive, Bool, true, ◌||◌, not, List, [], ◌∷◌, ◌≡◌, refl, arith, subst, sym,
}
use appcenter_agent_linux.Text.{Text}
use appcenter_agent_linux.Api.{Result, ok, err}
use appcenter_agent_linux.Session.{
  SessionStatus, State, idle, pending, approved, active, rejected, ended, error, other, restore,
  restore_state, is_open, end, reset_connection,
}
use appcenter_agent_linux.Vnc.Laws.{new-IsConsistent}
use appcenter_agent_linux.Remote
use appcenter_agent_linux.Remote.{Agent, persist}
use appcenter_agent_linux.Remote.Invariant.{Inv}
use appcenter_agent_linux.Remote.Server.{expire_restored, end_session}
use appcenter_agent_linux.Heartbeat.{Env}
use appcenter_agent_linux.Heartbeat.Global.{IsGood}
use appcenter_agent_linux.Heartbeat.Loop.{Event, run}
use appcenter_agent_linux.Heartbeat.Steps.{run-IsGood}
use appcenter_agent_linux.Tasks.Queue.{persist_task_deduper}
use appcenter_agent_linux.Startup.{
  AgentState, Boot, identified, initial_remote, first_register, initial_installer, initial_host,
}

abbrev pub has_id : SessionStatus → Bool
has_id s = not (is_open s.state) || is_positive s.session_id

expire-Inv : (env : Remote.Env) (a : Agent) → Inv a → Inv (expire_restored env a)
unfolding expire_restored persist end_session end reset_connection
expire-Inv env a v = ground arith

restore-open : (s : State) → is_open (restore_state s) ≡ is_open s
unfolding restore_state
restore-open idle = refl
restore-open pending = refl
restore-open approved = refl
restore-open active = refl
restore-open rejected = refl
restore-open ended = refl
restore-open error = refl
restore-open (other []) = refl
restore-open (other (c ∷ s)) = refl

register-Inv : (r : Result Text) (a : Agent) → Inv a → Inv (first_register r a)
unfolding first_register
register-Inv (err e) a v = v
register-Inv (ok secret) a v = record { vnc = v.vnc; has_id = v.has_id }

initial-IsGood :
    (env : Env) (boot : Boot) (st : AgentState)
    → has_id st.remote_support_session ≡ true
    → IsGood env (initial_host env boot st)
unfolding initial_host initial_remote initial_installer persist_task_deduper restore
initial-IsGood env boot st h = record {
  remote = register-Inv (boot.register st.uuid) _ (
      expire-Inv env.remote _ (record {
        vnc = new-IsConsistent boot.vnc_env boot.display boot.remote_support_port;
        has_id =
            subst (λ b. (not b || is_positive st.remote_support_session.session_id) ≡ true)
              (sym (restore-open st.remote_support_session.state)) h;
      }));
  installer = record { in_capacity = omega arith; accepted = tt; verified = tt };
  board = record { distinct = tt; shown = tt };
}

-- From its start on, with a state file whose open session, if it has one, has a positive id, and
-- after any sequence of heartbeats, callbacks, worker rounds, local requests and ends of prompts,
-- notifications and x11vnc: the status of x11vnc agrees with its process, an open session has a
-- positive id, the install queue holds accepted commands within its capacity, only checked packages
-- were handed to the installer, and the tracked announcements have positive ids, each once, and are
-- being shown.
pub agent_stays-IsGood :
    (env : Env) (boot : Boot) (st : AgentState) (es : List Event)
    → has_id st.remote_support_session ≡ true
    → IsGood env (run env es (initial_host env boot (identified boot st)))
unfolding identified
agent_stays-IsGood env boot st es h =
    run-IsGood env es (initial_host env boot (identified boot st))
      (initial-IsGood env boot (identified boot st) h)
