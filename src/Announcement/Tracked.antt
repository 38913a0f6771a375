-- ===== src/Announcement/Tracked.antt =====
-- internal/announcement/tracker.go: what the tracker holds while announcements come and go.
use appcenter_agent_linux.Base.{
  ℤ, eq_ℤ, eq_ℤ_refl, is_positive, Bool, true, false, not, ◌&&◌, ◌||◌, List, [], ◌∷◌, All, Option,
  none, some, ◌≡◌, arith, if_split, if_both, eq_ℤ_iff,
}
use appcenter_agent_linux.Text.{trim_space}
use appcenter_agent_linux.Text.Split.{atoi}
use appcenter_agent_linux.Announcement.{
  positive_id, PendingAnnouncement, Tracker, remove, add, parse_announcement_id, AnnouncementId,
  Push, Board, track, handle_announcement_push, drop_first, finish_announcement, number, text,
  other,
}

pub data Event : Type 0 where
  pushes : Push → Event
  finishes : ℤ → Bool → Event

unfoldable pub apply_event : Event → Board → Board
unfolding handle_announcement_push finish_announcement
apply_event (pushes p) b = handle_announcement_push p b
apply_event (finishes id sends) b = finish_announcement id sends b

unfoldable pub run : List Event → Board → Board
unfolding apply_event
run [] b = b
run (e ∷ es) b = run es (apply_event e b)

abbrev pub is_shown : ℤ → List ℤ → Bool
is_shown id [] = false
is_shown id (x ∷ l) = eq_ℤ x id || is_shown id l

-- No other entry has this id.
abbrev pub Single : ℤ → Tracker → Type 0
Single id = All (λ (p : PendingAnnouncement). eq_ℤ p.id id ≡ false)

abbrev pub IsMap : Tracker → Type 0
IsMap [] = Unit {0}
IsMap (p ∷ t) = Single p.id t × IsMap t

-- What is tracked is shown, with a positive id.
abbrev pub IsShown : List ℤ → Tracker → Type 0
IsShown l = All (λ (p : PendingAnnouncement). (is_positive p.id && is_shown p.id l) ≡ true)

pub record IsTracked (b : Board) : Type 0 where
  pub distinct : IsMap b.tracker
  pub shown : IsShown b.showing b.tracker

remove-Single : (id : ℤ) (t : Tracker) → Single id (remove id t)
unfolding remove
remove-Single id [] = tt
remove-Single id (p ∷ t) =
    if_split (Single id) (not (eq_ℤ p.id id)) (λ e. (ground arith, remove-Single id t))
      (λ e. remove-Single id t)

remove-keeps : (id x : ℤ) (t : Tracker) → Single x t → Single x (remove id t)
unfolding remove
remove-keeps id x [] h = tt
remove-keeps id x (p ∷ t) h =
    if_both (Single x) (not (eq_ℤ p.id id)) (h.0, remove-keeps id x t h.1) (remove-keeps id x t h.1)

remove-IsMap : (id : ℤ) (t : Tracker) → IsMap t → IsMap (remove id t)
unfolding remove
remove-IsMap id [] h = tt
remove-IsMap id (p ∷ t) h =
    if_both IsMap (not (eq_ℤ p.id id)) (remove-keeps id p.id t h.0, remove-IsMap id t h.1)
      (remove-IsMap id t h.1)

remove-IsShown : (l : List ℤ) (id : ℤ) (t : Tracker) → IsShown l t → IsShown l (remove id t)
unfolding remove
remove-IsShown l id [] h = tt
remove-IsShown l id (p ∷ t) h =
    if_both (IsShown l) (not (eq_ℤ p.id id)) (h.0, remove-IsShown l id t h.1)
      (remove-IsShown l id t h.1)

push-IsShown : (l : List ℤ) (id : ℤ) (t : Tracker) → IsShown l t → IsShown (id ∷ l) t
push-IsShown l id [] h = tt
push-IsShown l id (p ∷ t) h = (ground arith, push-IsShown l id t h.1)

still_shown :
    (id x : ℤ) (l : List ℤ)
    → eq_ℤ x id ≡ false
    → is_shown x l ≡ true
    → is_shown x (drop_first id l) ≡ true
unfolding drop_first
still_shown id x [] d h = h
still_shown id x (y ∷ l) d h =
    ground (arith, still_shown id x l, eq_ℤ_iff y id, eq_ℤ_iff y x, eq_ℤ_iff x id)

drop-IsShown :
    (id : ℤ) (l : List ℤ) (t : Tracker) → Single id t → IsShown l t → IsShown (drop_first id l) t
drop-IsShown id l [] s h = tt
drop-IsShown id l (p ∷ t) s h = (ground (arith, still_shown id p.id l), drop-IsShown id l t s.1 h.1)

track_positive :
    (p : Push) (o : Option ℤ) (b : Board) → IsTracked b → IsTracked (track p (positive_id o) b)
unfolding track add
track_positive p none b v = v
track_positive p (some id) b v =
    if_split (λ (o : Option ℤ). IsTracked (track p o b)) (is_positive id)
      (λ e. record {
        distinct = (remove-Single id b.tracker, remove-IsMap id b.tracker v.distinct);
        shown = (
          ground (arith, e, eq_ℤ_refl id),
          push-IsShown b.showing id (remove id b.tracker)
              (remove-IsShown b.showing id b.tracker v.shown),
        );
      })
      (λ e. v)

track-IsTracked :
    (p : Push) (o : AnnouncementId) (b : Board)
    → IsTracked b
    → IsTracked (track p (parse_announcement_id o) b)
unfolding track parse_announcement_id
track-IsTracked p (number n) b v = track_positive p (some n) b v
track-IsTracked p (text s) b v = track_positive p (atoi (trim_space s)) b v
track-IsTracked p other b v = v

finish-IsTracked :
    (id : ℤ) (sends : Bool) (b : Board) → IsTracked b → IsTracked (finish_announcement id sends b)
unfolding finish_announcement
finish-IsTracked id sends b v = record {
  distinct = remove-IsMap id b.tracker v.distinct;
  shown =
      drop-IsShown id b.showing (remove id b.tracker) (remove-Single id b.tracker)
        (remove-IsShown b.showing id b.tracker v.shown);
}

pub apply_event-IsTracked : (e : Event) (b : Board) → IsTracked b → IsTracked (apply_event e b)
unfolding apply_event handle_announcement_push
apply_event-IsTracked (pushes p) b v = track-IsTracked p p.announcement_id b v
apply_event-IsTracked (finishes id sends) b v = finish-IsTracked id sends b v

-- While announcements are pushed and shown in any order, the tracker holds each id once, and every
-- announcement in it has a positive id and is being shown, if that held before.
pub run-IsTracked : (es : List Event) (b : Board) → IsTracked b → IsTracked (run es b)
unfolding run
run-IsTracked [] b v = v
run-IsTracked (e ∷ es) b v = run-IsTracked es (apply_event e b) (apply_event-IsTracked e b v)
