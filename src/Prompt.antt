-- ===== src/Prompt.antt =====
-- internal/remotesupport/prompt_linux.go: `PromptApproval`, the question on the desktop. zenity is a
-- parameter: whether it is installed, and how a run of it with these arguments and this DISPLAY ends.
pub mod Answer
pub mod Display
use appcenter_agent_linux.Base.{
  ℕ, ℤ, pos, negsuc, is_positive, eq_ℤ, ◌++◌, Bool, true, false, not, ◌&&◌, ◌||◌, List, [], ◌∷◌,
  if◌then◌else◌, Option, none, some, ◌≡◌, refl,
}
use appcenter_agent_linux.Text.{Text, codes, trim_space, to_lower, is_empty, contains, itoa_ℤ}
use appcenter_agent_linux.Api.{Error, message}
use appcenter_agent_linux.Remote.Server.{PromptResult, failed, closed, answered}

-- How zenity ends: well, with an exit code and its output, or not started
pub data Run : Type 0 where
  success : Run
  exits : ℤ → Text → Run
  not_run : Error → Run

-- What PromptApproval returns: approved, decided and the error
pub record Prompted : Type 0 where
  pub approved : Bool
  pub decided : Bool
  pub error : Option Error

-- A line of the question, where its text is not blank
unfoldable pub labelled : Text → Text → Text
labelled label s = if is_empty (trim_space s) then [] else label ++ (trim_space s ++ codes "\n")

-- The question
unfoldable pub question : Text → Text → Text
unfolding labelled
question admin_name reason =
    codes "Bir yonetici uzak destek baglantisi istiyor.\n\n"
    ++ (labelled (codes "Yonetici: ") admin_name
        ++ (labelled (codes "Neden: ") reason ++ codes "\nOnayliyor musunuz?"))

unfoldable pub prompt_timeout : ℤ → ℤ
prompt_timeout sec = if is_positive sec then sec else pos 30

-- The arguments of zenity
unfoldable pub prompt_args : Text → Text → ℤ → List Text
unfolding question prompt_timeout
prompt_args admin_name reason sec =
    codes "--question"
    ∷ codes "--title"
    ∷ codes "AppCenter Uzak Destek"
    ∷ codes "--text"
    ∷ question admin_name reason
    ∷ codes "--ok-label"
    ∷ codes "Onayla"
    ∷ codes "--cancel-label"
    ∷ codes "Reddet"
    ∷ codes "--width"
    ∷ codes "460"
    ∷ codes "--timeout"
    ∷ itoa_ℤ (prompt_timeout sec)
    ∷ []

-- The display of the question
unfoldable pub prompt_display : Text → Text
unfolding trim_space
prompt_display display = if is_empty (trim_space display) then codes ":0" else trim_space display

-- Whether zenity says that it cannot show the question
unfoldable pub ui_unavailable : Text → Bool
unfolding contains trim_space to_lower
ui_unavailable output =
    let s = to_lower (trim_space output) in
    contains s (codes "cannot open display")
    || (contains s (codes "gtk-warning") || contains s (codes "dbus"))

abbrev undecided : Option Error → Prompted
undecided e = record { approved = false; decided = false; error = e }

-- The exit code 1, with the output
unfoldable pub cancelled : Text → Prompted
unfolding ui_unavailable
cancelled output =
    if ui_unavailable output
    then undecided (some (message (codes "zenity ui unavailable: " ++ trim_space output)))
    else record { approved = false; decided = true; error = none }

-- What PromptApproval makes of the end of zenity
unfoldable pub prompted : Run → Prompted
unfolding cancelled
prompted success = record { approved = true; decided = true; error = none }
prompted (exits code output) =
    if eq_ℤ code (pos 5)
    then undecided none
    else if eq_ℤ code (pos 1)
    then cancelled output
    else undecided (some (message (codes "exit status " ++ itoa_ℤ code)))
prompted (not_run e) = undecided (some e)

-- PromptApproval, with the path of zenity and its run by path, arguments and DISPLAY
unfoldable pub prompt_approval :
    Option Text → (Text → List Text → Text → Run) → Text → Text → Text → ℤ → Prompted
unfolding prompted prompt_args prompt_display
prompt_approval none zenity display admin_name reason sec =
    undecided (some (message (codes "zenity is not installed")))
prompt_approval (some path) zenity display admin_name reason sec =
    prompted (zenity path (prompt_args admin_name reason sec) (prompt_display display))

-- What the goroutine of startApprovalPrompt makes of it
unfoldable pub prompt_result : Prompted → PromptResult
prompt_result p = elim p.error [
  | some e ↦ failed
  | none ↦ if p.decided then answered p.approved else closed
]
