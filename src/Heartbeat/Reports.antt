-- ===== src/Heartbeat/Reports.antt =====
-- cmd/service/main.go: what a heartbeat reports of the services.
use appcenter_agent_linux.Base.{
  true, ◌||◌, not, List, [], ◌≡◌, refl, inl, inr, arith, if_split, Bool-cases,
}
use appcenter_agent_linux.Text.{same}
use appcenter_agent_linux.Text.Laws.{same-eq}
use appcenter_agent_linux.Api.{Result, ok, err}
use appcenter_agent_linux.Services.{ServiceItem}
use appcenter_agent_linux.ServerConfig.{Settings}
use appcenter_agent_linux.Heartbeat.{
  Around, ServiceReport, ServiceWatch, service_report, collected_report, collects_services,
}

-- The three outcomes: nothing is reported and kept; a hash is reported and kept that the server has
-- had before, with no list; the hash of the collected services is reported and kept, with the list.
pub data Reported (x : Around) (s : Settings) (w : ServiceWatch)
    (out : ServiceReport × ServiceWatch) : Type 0 where
  silent : out ≡ (([], []), w) → Reported x s w out
  unchanged :
      out.0 ≡ (w.last_services_hash, [])
      → out.1.last_services_hash ≡ w.last_services_hash
      → Reported x s w out
  listed :
      (items : List ServiceItem)
      → x.collected_services ≡ ok items
      → out.0 ≡ (x.services_hash items, items)
      → out.1.last_services_hash ≡ x.services_hash items
      → (s.service_sync_required || not (same (x.services_hash items) w.last_services_hash)) ≡ true
      → Reported x s w out

module _ (x : Around) (s : Settings) (w : ServiceWatch) where
  collected-Reported :
      (r : Result (List ServiceItem))
      → x.collected_services ≡ r
      → Reported x s w (collected_report x s r w)
  unfolding collected_report
  collected-Reported (err e) c = silent refl
  collected-Reported (ok items) c =
      let h = x.services_hash items in
      elim (Bool-cases (s.service_sync_required || not (same h w.last_services_hash))) [
        | inl e ↦ listed items c (ground (arith, e)) refl e
        | inr e ↦
            unchanged (ground (arith, e, same-eq h w.last_services_hash))
              (same-eq h w.last_services_hash (ground (arith, e)))
      ]

-- A heartbeat reports the services in one of three ways: nothing, with nothing noted; the hash of
-- the last report with no list; or the hash of the collected services, which is noted, with their
-- list, when the server required it or the hash had changed.
pub service_report-Reported :
    (x : Around) (s : Settings) (w : ServiceWatch) → Reported x s w (service_report x s w)
unfolding service_report
service_report-Reported x s w =
    if_split (Reported x s w) (not s.service_monitoring_enabled) (λ e. silent refl)
      (λ e.
        if_split (Reported x s w) (collects_services x s w)
          (λ c. collected-Reported x s w x.collected_services refl) (λ c. unchanged refl refl))
