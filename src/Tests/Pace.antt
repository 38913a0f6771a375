-- ===== src/Tests/Pace.antt =====
-- The loop of the agent at concrete inputs.
use appcenter_agent_linux.Base.{◌≡◌, refl, true, [], ◌∷◌, List, ◌*◌, ℕ, length}
use appcenter_agent_linux.Dedup.{second}
use appcenter_agent_linux.Heartbeat.{Host}
use appcenter_agent_linux.Heartbeat.Config.{heartbeat_config_to_map}
use appcenter_agent_linux.Heartbeat.Ticker.{
  Round, Wake, kicks, ticks, triggers, stops, new_pulse, main_loop,
}
use appcenter_agent_linux.Heartbeat.Spaced.{IsSpaced, main_loop-IsSpaced}
use appcenter_agent_linux.Startup.{identified, initial_host}
use appcenter_agent_linux.Tests.Whole.{env, stock, around, state, boot}

abbrev round : ℕ → Round
round n = record {
  ws_active = true;
  has_client = true;
  now = n * second;
  status_at = n * second;
  status_delay = 1;
  active_installs = 0;
  scan = stock;
  after_status = stock;
  around = around;
}

abbrev wakes : List Wake
wakes =
    kicks true stock
    ∷ ticks (round 10)
    ∷ ticks (round 20)
    ∷ triggers around
    ∷ ticks (round 400)
    ∷ stops
    ∷ []

abbrev started : Host
started = initial_host env boot (identified boot state)

-- The second tick comes too early for a status.
statuses_of_wakes : length (main_loop env wakes (started, new_pulse)).1.statuses ≡ 2
unfolding main_loop initial_host heartbeat_config_to_map
statuses_of_wakes = refl

main_loop-IsSpaced_example : IsSpaced (main_loop env wakes (started, new_pulse)).1.statuses
main_loop-IsSpaced_example = main_loop-IsSpaced env wakes started
