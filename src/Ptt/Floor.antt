-- ===== src/Ptt/Floor.antt =====
-- cmd/ptt/floor.go: one speaker per room. A handler holds the floor's mutex for its decision and
-- lets go of it for the media work that follows, so each is two functions, the decision and the
-- work, and the handler is the one after the other. Logging and the activity log are left out.
pub mod OneSpeaker
pub mod Interleavings
use example_applications.Base.{
  ℕ, String, ◌==◌, string_eq, nat_eq, Bool, true, false, not, Option, none, some, List, [], ◌∷◌,
  lookup, insert, erase, if◌then◌else◌,
}
use example_applications.Ptt.Presence.{
  Role, no_role, speaker, listener, Session, World, floor_denied, floor_error, floor_granted,
  listen_start, stop, speaking, webrtc_error, webrtc_answer, create_room, delete_room, delete_leg,
  add_leg, set_role, send, command, members, bind_leg, unbind_leg, session_for_leg, add, remove,
}

-- `speaker`
unfoldable pub speaker_of : World → String → String
speaker_of w room = elim (lookup room w.active) [ none ↦ "" | some s ↦ (w.sessions s).username ]

broadcast_to : World → List ℕ → String → World
broadcast_to w [] user = w
broadcast_to w (m ∷ ms) user = broadcast_to (send w m (speaking user)) ms user

-- broadcastSpeaker
unfoldable pub broadcast_speaker : World → String → String → World
unfolding broadcast_to
broadcast_speaker w room user = broadcast_to w (members w room) user

-- The decision of `press`: whether the floor was free, and is now held.
unfoldable pub press_claim : World → ℕ → World × Bool
unfolding send
press_claim w s = elim (lookup (w.sessions s).room_id w.active) [
  | some holder ↦ (send w s (floor_denied (w.sessions holder).username), false)
  | none ↦ (record w { active = insert (w.sessions s).room_id s w.active }, true)
]

-- The loop over the other members, and its body.
unfoldable pub start_listener : World → ℕ → ℕ → World
unfolding set_role send
start_listener w s m = if m == s then w else send (set_role w m listener) m listen_start

unfoldable pub start_listeners : World → ℕ → List ℕ → World
unfolding start_listener
start_listeners w s [] = w
start_listeners w s (m ∷ ms) = start_listeners (start_listener w s m) s ms

-- The work of `press`: `opened` is the answer to CreateRoom, a conflict counting as success.
unfoldable pub press_open : World → ℕ → Bool → World
unfolding set_role send command start_listeners broadcast_speaker
press_open w s opened =
    let room = (w.sessions s).room_id in
    let asked = command w (create_room room) in
    if opened
    then (let granted = send (set_role asked s speaker) s floor_granted in
        broadcast_speaker (start_listeners granted s (members granted room)) room
          (w.sessions s).username)
    else send (record asked { active = erase room w.active }) s floor_error

unfoldable pub press : World → ℕ → Bool → World
unfolding press_claim press_open
press w s opened = let (w', free) = press_claim w s in if free then press_open w' s opened else w'

-- The decision of endBurstIfHolder.
unfoldable pub end_claim : World → ℕ → World × Bool
end_claim w s = elim (lookup (w.sessions s).room_id w.active) [
  | none ↦ (w, false)
  | some holder ↦
      if holder == s
      then (record w { active = erase (w.sessions s).room_id w.active }, true)
      else (w, false)
]

-- The body of the loop of `teardown`.
unfoldable pub stop_member : World → ℕ → World
unfolding unbind_leg command set_role send
stop_member w m =
    let leg = (w.sessions m).leg_id in
    let freed = if leg == "" then w else command (unbind_leg w m) (delete_leg leg) in
    send (set_role freed m no_role) m stop

unfoldable pub stop_members : World → List ℕ → World
unfolding stop_member
stop_members w [] = w
stop_members w (m ∷ ms) = stop_members (stop_member w m) ms

unfoldable pub teardown : World → String → World
unfolding stop_members command broadcast_speaker
teardown w room =
    broadcast_speaker (command (stop_members w (members w room)) (delete_room room)) room ""

-- endBurstIfHolder and `release`
unfoldable pub end_burst : World → ℕ → World × Bool
end_burst w s =
    let (w', held) = end_claim w s in
    if held then (teardown w' (w.sessions s).room_id, true) else (w', false)

unfoldable pub release : World → ℕ → World
unfolding end_burst
release w s = (end_burst w s).0

abbrev pub is_none : Role → Bool
is_none no_role = true
is_none _ = false

abbrev pub is_listener : Role → Bool
is_listener listener = true
is_listener _ = false

-- The checks of `offer` before it negotiates: the role that the work goes by, if it goes on.
unfoldable pub offer_start : World → ℕ → String → World × Option Role
unfolding send
offer_start w s sdp =
    if sdp == ""
    then (send w s (webrtc_error "sdp required"), none)
    else if is_none (w.sessions s).role
    then (send w s stop, none)
    else (w, some (w.sessions s).role)

-- The rest of `offer`: `answer` is the leg that the media server made, and `role` was read before.
unfoldable pub offer_finish : World → ℕ → Role → Option String → World
unfolding send command bind_leg
offer_finish w s role answer = elim answer [
  | none ↦ send w s (webrtc_error "offer failed")
  | some leg ↦
      if is_none (w.sessions s).role
      then send (command w (delete_leg leg)) s stop
      else send (command (bind_leg w s leg) (add_leg (w.sessions s).room_id leg (is_listener role)))
          s (webrtc_answer leg)
]

-- onJoin
unfoldable pub on_join : World → ℕ → World
unfolding set_role send
on_join w s = elim (lookup (w.sessions s).room_id w.active) [
  | none ↦ w
  | some holder ↦
      if holder == s
      then w
      else send (send (set_role w s listener) s listen_start) s
          (speaking (w.sessions holder).username)
]

-- The part of `leave` for a session that held no floor.
unfoldable pub drop_listener : World → ℕ → World
unfolding unbind_leg command set_role
drop_listener w s =
    let leg = (w.sessions s).leg_id in
    let freed = if leg == "" then w else command (unbind_leg w s) (delete_leg leg) in
    set_role freed s no_role

unfoldable pub leave : World → ℕ → World
unfolding end_burst drop_listener
leave w s = let (w', ended) = end_burst w s in if ended then w' else drop_listener w' s

-- legGone
unfoldable pub leg_gone : World → String → World
unfolding session_for_leg unbind_leg end_burst
leg_gone w leg = elim (session_for_leg w leg) [
  | none ↦ w
  | some s ↦ (end_burst (unbind_leg w s) s).0
]

-- What the web socket does when its browser goes: `leave`, then the removal from presence.
unfoldable pub disconnect : World → ℕ → World
unfolding leave remove
disconnect w s = remove (leave w s) s

-- The handlers, each run to its end before the next.
pub data Event : Type 0 where
  joins : ℕ → Event
  presses : ℕ → Bool → Event
  releases leaves : ℕ → Event
  offers : ℕ → String → Option String → Event
  legs_gone : String → Event

offer : World → ℕ → String → Option String → World
unfolding offer_start offer_finish
offer w s sdp answer =
    let (w', role) = offer_start w s sdp in
    elim role [ none ↦ w' | some r ↦ offer_finish w' s r answer ]

unfoldable pub handle : World → Event → World
unfolding add on_join press release disconnect offer leg_gone
handle w (joins s) = on_join (add w s) s
handle w (presses s opened) = press w s opened
handle w (releases s) = release w s
handle w (leaves s) = disconnect w s
handle w (offers s sdp answer) = offer w s sdp answer
handle w (legs_gone leg) = leg_gone w leg

unfoldable pub run : World → List Event → World
unfolding handle
run w [] = w
run w (e ∷ es) = run (handle w e) es
