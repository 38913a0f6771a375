-- ===== src/Announcement.antt =====
-- internal/announcement/tracker.go, and in cmd/service/main.go `parseAnnouncementID`,
-- `handleAnnouncementPush` and `processPendingAnnouncements`. Showing a notification is a step of its
-- own, whose end is `finish_announcement`.
pub mod Tracked
pub mod Notify
pub mod Users
use appcenter_agent_linux.Base.{
  ℕ, ◌++◌, ℤ, pos, eq_ℤ, is_positive, Bool, true, false, not, ◌&&◌, ◌||◌, List, [], ◌∷◌,
  if◌then◌else◌, Option, none, some, keep, ◌≡◌, refl,
}
use appcenter_agent_linux.Text.{Text, codes, trim_space, is_empty, same}
use appcenter_agent_linux.Text.Split.{atoi}

pub record PendingAnnouncement : Type 0 where
  pub id : ℤ
  pub title : Text
  pub message : Text
  pub priority : Text

-- The tracker's map, with each id once
abbrev pub Tracker : Type 0
Tracker = List PendingAnnouncement

-- Remove
unfoldable pub remove : ℤ → Tracker → Tracker
remove id t = keep (λ p. not (eq_ℤ p.id id)) t

-- Add
unfoldable pub add : PendingAnnouncement → Tracker → Tracker
unfolding remove
add p t = p ∷ remove p.id t

-- GetCriticalPending
unfoldable pub get_critical_pending : Tracker → Tracker
unfolding same
get_critical_pending t = keep (λ p. same p.priority (codes "critical")) t

-- payload["announcement_id"]: a number that `intFromAny` takes, a text, or something else
pub data AnnouncementId : Type 0 where
  number : ℤ → AnnouncementId
  text : Text → AnnouncementId
  other : AnnouncementId

abbrev pub positive_id : Option ℤ → Option ℤ
positive_id none = none
positive_id (some id) = if is_positive id then some id else none

-- parseAnnouncementID
unfoldable pub parse_announcement_id : AnnouncementId → Option ℤ
unfolding atoi trim_space
parse_announcement_id (number id) = positive_id (some id)
parse_announcement_id (text s) = positive_id (atoi (trim_space s))
parse_announcement_id other = none

-- A pushed announcement; a text that is missing, or no text, is empty.
pub record Push : Type 0 where
  pub announcement_id : AnnouncementId
  pub title : Text
  pub message : Text
  pub priority : Text

-- The tracker, the notifications that are shown now, and the acknowledgements sent, newest last
pub record Board : Type 0 where
  pub tracker : Tracker
  pub showing : List ℤ
  pub acks : List ℤ

unfoldable pub track : Push → Option ℤ → Board → Board
unfolding add trim_space
track p none b = b
track p (some id) b = record b {
  tracker =
      add
        (record {
          id = id;
          title = p.title;
          message = p.message;
          priority = if is_empty (trim_space p.priority) then codes "normal" else p.priority;
        })
        b.tracker;
  showing = id ∷ b.showing;
}

-- handleAnnouncementPush, up to the start of its goroutine
unfoldable pub handle_announcement_push : Push → Board → Board
unfolding track parse_announcement_id
handle_announcement_push p b = track p (parse_announcement_id p.announcement_id) b

-- processPendingAnnouncements
unfoldable pub process_pending_announcements : List Push → Board → Board
unfolding handle_announcement_push
process_pending_announcements [] b = b
process_pending_announcements (p ∷ l) b =
    process_pending_announcements l (handle_announcement_push p b)

-- The list without the first `id`
unfoldable pub drop_first : ℤ → List ℤ → List ℤ
drop_first id [] = []
drop_first id (x ∷ l) = let rest = drop_first id l in if eq_ℤ x id then l else x ∷ rest

-- The goroutine after ShowNotification; `sends` says that there is a client and that it sends.
unfoldable pub finish_announcement : ℤ → Bool → Board → Board
unfolding drop_first remove
finish_announcement id sends b = record {
  tracker = remove id b.tracker;
  showing = drop_first id b.showing;
  acks = if sends then b.acks ++ id ∷ [] else b.acks;
}

numbered : parse_announcement_id (text (codes " 12 ")) ≡ some (pos 12)
unfolding parse_announcement_id atoi trim_space
numbered = refl
