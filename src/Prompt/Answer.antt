-- ===== src/Prompt/Answer.antt =====
-- internal/remotesupport/prompt_linux.go: what a prompt can decide.
use appcenter_agent_linux.Base.{
  ℤ, pos, eq_ℤ, eq_ℤ_iff, true, false, List, Option, none, some, ◌≡◌, refl, sym, subst, ◌⊎◌, inl,
  inr, if_split,
}
use appcenter_agent_linux.Text.{Text}
use appcenter_agent_linux.Api.{Error}
use appcenter_agent_linux.Remote.Server.{PromptResult, failed, closed, answered}
use appcenter_agent_linux.Prompt.{
  Run, success, exits, not_run, Prompted, prompted, cancelled, prompt_approval, prompt_args,
  prompt_display, ui_unavailable, prompt_result,
}

-- That the prompt came to a result with this end of zenity
pub data Decided : Run → PromptResult → Type 0 where
  approves : Decided success (answered true)
  rejects :
      (output : Text)
      → ui_unavailable output ≡ false
      → Decided (exits (pos 1) output) (answered false)
  times_out : (output : Text) → Decided (exits (pos 5) output) closed
  unavailable :
      (output : Text) → ui_unavailable output ≡ true → Decided (exits (pos 1) output) failed
  breaks :
      (code : ℤ) (output : Text)
      → eq_ℤ code (pos 5) ≡ false
      → eq_ℤ code (pos 1) ≡ false
      → Decided (exits code output) failed
  not_started : (e : Error) → Decided (not_run e) failed

cancelled-Decided :
    (output : Text) → Decided (exits (pos 1) output) (prompt_result (cancelled output))
unfolding cancelled prompt_result
cancelled-Decided output =
    if_split (λ (p : Prompted). Decided (exits (pos 1) output) (prompt_result p))
      (ui_unavailable output) (unavailable output) (rejects output)

prompted-Decided : (r : Run) → Decided r (prompt_result (prompted r))
unfolding prompted prompt_result
prompted-Decided success = approves
prompted-Decided (not_run e) = not_started e
prompted-Decided (exits code output) =
    let P = λ (p : Prompted). Decided (exits code output) (prompt_result p) in
    if_split P (eq_ℤ code (pos 5))
      (λ e.
        subst (λ c. Decided (exits c output) closed) (sym ((eq_ℤ_iff code (pos 5)).0 e))
          (times_out output))
      (λ five.
        if_split P (eq_ℤ code (pos 1))
          (λ e.
            subst (λ c. Decided (exits c output) (prompt_result (cancelled output)))
              (sym ((eq_ℤ_iff code (pos 1)).0 e)) (cancelled-Decided output))
          (λ one. breaks code output five one))

-- A prompt fails where zenity is not installed. Otherwise it approves only when zenity ends well,
-- rejects only on exit code 1 with no sign that the question could not be shown, stays undecided on
-- exit code 5, and fails in all other cases.
pub prompt_approval-Decided :
    (path : Option Text) (zenity : Text → List Text → Text → Run) (display admin_name reason : Text)
    (sec : ℤ)
    → ((path ≡ none)
        × (prompt_result (prompt_approval path zenity display admin_name reason sec) ≡ failed))
      ⊎ ((p : Text) × (path ≡ some p)
          × Decided
              (zenity p (prompt_args admin_name reason sec) (prompt_display display))
              (prompt_result (prompt_approval path zenity display admin_name reason sec)))
unfolding prompt_approval prompt_result
prompt_approval-Decided none zenity display admin_name reason sec = inl (refl, refl)
prompt_approval-Decided (some p) zenity display admin_name reason sec = inr (
  p,
  refl,
  prompted-Decided (zenity p (prompt_args admin_name reason sec) (prompt_display display)),
)
