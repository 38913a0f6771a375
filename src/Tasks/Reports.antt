-- ===== src/Tasks/Reports.antt =====
-- cmd/service/main.go: what `reportTaskStatus` and `downloadWithRetry` guarantee.
use appcenter_agent_linux.Base.{
  ℕ, zero, suc, ◌+◌, ◌≤◌, ◌++◌, ◌≡◌, refl, ◌∙◌, ℤ, Bool, true, false, [], ◌∷◌, ◌⊎◌, inl, inr,
  if_both, replicate, append_assoc, arith,
}
use appcenter_agent_linux.Text.{Text}
use appcenter_agent_linux.Api.{Error, Result, ok, err, result_split}
use appcenter_agent_linux.Tasks.{
  TaskStatusRequest, World, Env, send_report, report_attempts, report_task_status,
  download_attempts, download_with_retry, event, context_canceled,
}

-- That the server took this report of the task.
unfoldable pub IsTaken : Env → ℤ → TaskStatusRequest → Type 0
IsTaken env id req = (k : ℕ) × ((u : Unit {0}) × (env.report k id req ≡ ok u))

-- From world `w` a report was sent one to `most` times and nothing else happened; success means
-- that the server took it.
pub record Reported (env : Env) (id : ℤ) (req : TaskStatusRequest) (most : ℕ) (w : World)
    (out : Bool × World) : Type 0 where
  pub more : ℕ
  pub in_bound : suc more ≤ most
  pub sent : out.1.reports ≡ w.reports ++ replicate (suc more) (id, req)
  pub same_installs : out.1.installs ≡ w.installs
  pub same_removed : out.1.removed ≡ w.removed
  pub taken : (out.0 ≡ false) ⊎ IsTaken env id req

module _ (env : Env) (id : ℤ) (req : TaskStatusRequest) where
  abbrev sent_once :
      (most : ℕ) (w : World) (arrived : Bool)
      → ((arrived ≡ false) ⊎ IsTaken env id req)
      → Reported env id req (suc most) w (arrived, send_report id req w)
  sent_once most w arrived h = record {
    more = 0;
    in_bound = omega arith;
    sent = refl;
    same_installs = refl;
    same_removed = refl;
    taken = h;
  }

  abbrev sent_again :
      (most : ℕ) (w : World) (out : Bool × World)
      → Reported env id req most (send_report id req w) out
      → Reported env id req (suc most) w out
  sent_again most w out r = record {
    more = suc r.more;
    in_bound = omega (arith, r.in_bound);
    sent = r.sent ∙ append_assoc w.reports ((id, req) ∷ []) (replicate (suc r.more) (id, req));
    same_installs = r.same_installs;
    same_removed = r.same_removed;
    taken = r.taken;
  }

  pub report_attempts_lem :
      (more : ℕ) (w : World) → Reported env id req (suc more) w (report_attempts env id req more w)
  unfolding report_attempts IsTaken
  report_attempts_lem zero w =
      result_split (Reported env id req 1 w) (env.report w.step id req)
        (λ u e. sent_once 0 w true (inr (w.step, (u, e)))) (λ x e. sent_once 0 w false (inl refl))
  report_attempts_lem (suc more) w =
      let w' = send_report id req w in
      let again =
        sent_again (suc more) w (report_attempts env id req more w')
          (report_attempts_lem more w') in
      result_split (Reported env id req (suc (suc more)) w) (env.report w.step id req)
        (λ u e. sent_once (suc more) w true (inr (w.step, (u, e))))
        (λ x e.
          if_both {A = Bool × World} (Reported env id req (suc (suc more)) w) (env.is_done w'.step)
            (sent_once (suc more) w false (inl refl)) again)

  -- A status report is sent at least once and at most three times, nothing else is installed,
  -- removed or reported by it, and it succeeds only when the server took the report.
  pub report_task_status-Reported :
      (w : World) → Reported env id req 3 w (report_task_status env id req w)
  unfolding report_task_status
  report_task_status-Reported w = report_attempts_lem 2 w

-- What a download leaves: no report, and a package only from the server.
pub record Downloaded (env : Env) (url name : Text) (w : World) (out : Result (Text × ℕ) × World)
    : Type 0 where
  pub same_reports : out.1.reports ≡ w.reports
  pub same_installs : out.1.installs ≡ w.installs
  pub same_removed : out.1.removed ≡ w.removed
  pub source : ((e : Error) × (out.0 ≡ err e)) ⊎ ((k : ℕ) × (env.download k url name ≡ out.0))

module _ (env : Env) (url name : Text) where
  abbrev from_server :
      (w : World) (r : Result (Text × ℕ)) (h : env.download w.step url name ≡ r)
      → Downloaded env url name w (r, event w)
  from_server w r h = record {
    same_reports = refl;
    same_installs = refl;
    same_removed = refl;
    source = inr (w.step, h);
  }

  pub download_attempts_lem :
      (more : ℕ) (w : World) → Downloaded env url name w (download_attempts env url name more w)
  unfolding download_attempts
  download_attempts_lem zero w = from_server w (env.download w.step url name) refl
  download_attempts_lem (suc more) w =
      let P = Downloaded env url name w in
      let rest = download_attempts_lem more (event w) in
      result_split P (env.download w.step url name) (λ a e. from_server w (ok a) e)
        (λ x e.
          if_both {A = Result (Text × ℕ) × World} P (env.is_done (w.step + 1))
            (record {
              same_reports = refl;
              same_installs = refl;
              same_removed = refl;
              source = inl (context_canceled, refl);
            })
            (record {
              same_reports = rest.same_reports;
              same_installs = rest.same_installs;
              same_removed = rest.same_removed;
              source = rest.source;
            }))

  pub download_with_retry_lem :
      (w : World) → Downloaded env url name w (download_with_retry env url name w)
  unfolding download_with_retry
  download_with_retry_lem w = download_attempts_lem 2 w
