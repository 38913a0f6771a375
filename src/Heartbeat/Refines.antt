-- ===== src/Heartbeat/Refines.antt =====
-- cmd/service/main.go: that the whole agent follows the protocol of a session, by any of its
-- goroutines.
use appcenter_agent_linux.Base.{Bool}
use appcenter_agent_linux.Text.{Text}
use appcenter_agent_linux.Remote.Events
use appcenter_agent_linux.Remote.Protocol.{Kind, Follows}
use appcenter_agent_linux.Heartbeat.{Host}

-- The session of the second state is reached from that of the first by moves of these kinds.
abbrev pub Leads : (Kind → Bool) → Host → Host → Type 0
Leads may h k = Follows may h.remote k.remote
