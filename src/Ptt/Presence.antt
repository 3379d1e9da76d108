-- ===== src/Ptt/Presence.antt =====
-- cmd/ptt/presence.go: the signed-in browsers, and the index of who is in which room. A session is
-- a pointer in Go, shared by the handlers; here it is a number, and its fields stand in a store.
use example_applications.Base.{
  ℕ, String, ◌==◌, string_eq, nat_eq, Bool, true, false, ◌||◌, Option, none, some, List, [], ◌∷◌,
  Table, lookup, insert, erase, if◌then◌else◌,
}
use example_applications.Base.Int.{ℤ, pos, ◌-ℤ◌, ltb_ℤ}
use mathlib.Core.Option

-- roleNone, roleSpeaker and roleListener.
pub data Role : Type 0 where
  no_role speaker listener : Role

pub record Session : Type 0 where
  pub username : String
  pub room_id : String
  pub leg_id : String
  pub role : Role
  pub last_ring : Option ℤ

-- What is pushed to the browsers. The writer may drop a message of a stalled browser.
pub data Message : Type 0 where
  floor_denied : String → Message
  floor_error floor_granted listen_start stop : Message
  speaking : String → Message
  webrtc_error : String → Message
  webrtc_answer : String → Message

-- The commands to the media server, without their answers.
pub data Command : Type 0 where
  create_room delete_room delete_leg : String → Command
  add_leg : String → String → Bool → Command

-- The program's state: the sessions, the presence index, the bursts (room to holder), and what was
-- sent to the browsers and to the media server, the last first.
pub record World : Type 0 where
  pub sessions : ℕ → Session
  pub by_room : Table (List ℕ)
  pub by_leg : Table ℕ
  pub active : Table ℕ
  pub sent : List (ℕ × Message)
  pub vsi : List Command

abbrev pub put : (ℕ → Session) → ℕ → Session → ℕ → Session
put f s x j = if s == j then x else f j

unfoldable pub set_leg : World → ℕ → String → World
set_leg w s leg = record w { sessions = put w.sessions s (record (w.sessions s) { leg_id = leg }) }

unfoldable pub set_role : World → ℕ → Role → World
set_role w s role = record w { sessions = put w.sessions s (record (w.sessions s) { role = role }) }

unfoldable pub send : World → ℕ → Message → World
send w s msg = record w { sent = (s, msg) ∷ w.sent }

unfoldable pub command : World → Command → World
command w c = record w { vsi = c ∷ w.vsi }

-- ringCooldown, in nanoseconds.
abbrev pub ring_cooldown : ℤ
ring_cooldown = pos 5000000000

-- takeRing: whether the session may ring at `now`, and the wait that remains if not.
unfoldable pub take_ring : Session → ℤ → Session × Bool × ℤ
take_ring s now = elim s.last_ring [
  | none ↦ (record s { last_ring = some now }, true, pos 0)
  | some last ↦
      let wait = ring_cooldown -ℤ (now -ℤ last) in
      if ltb_ℤ (pos 0) wait
      then (s, false, wait)
      else (record s { last_ring = some now }, true, pos 0)
]

abbrev pub mem : ℕ → List ℕ → Bool
mem j [] = false
mem j (x ∷ xs) = x == j || mem j xs

unfoldable pub without : ℕ → List ℕ → List ℕ
without s [] = []
without s (x ∷ xs) = let rest = without s xs in if x == s then rest else x ∷ rest

abbrev is_empty : List ℕ → Bool
is_empty [] = true
is_empty (_ ∷ _) = false

-- membersInRoom, in the order of the index.
unfoldable pub members : World → String → List ℕ
members w room = Option.get_or (lookup room w.by_room) []

unfoldable pub add : World → ℕ → World
unfolding members
add w s =
    let room = (w.sessions s).room_id in
    let set = members w room in
    record w { by_room = insert room (if mem s set then set else s ∷ set) w.by_room }

unfoldable pub remove : World → ℕ → World
unfolding members without
remove w s =
    let room = (w.sessions s).room_id in
    let leg = (w.sessions s).leg_id in
    let rest = without s (members w room) in
    record w {
      by_room = if is_empty rest then erase room w.by_room else insert room rest w.by_room;
      by_leg = if leg == "" then w.by_leg else erase leg w.by_leg;
    }

unfoldable pub bind_leg : World → ℕ → String → World
unfolding set_leg
bind_leg w s leg =
    let old = (w.sessions s).leg_id in
    let dropped = if old == "" then w.by_leg else erase old w.by_leg in
    record (set_leg w s leg) { by_leg = if leg == "" then dropped else insert leg s dropped }

unfoldable pub unbind_leg : World → ℕ → World
unfolding set_leg
unbind_leg w s =
    let leg = (w.sessions s).leg_id in
    record (set_leg w s "") { by_leg = if leg == "" then w.by_leg else erase leg w.by_leg }

-- sessionForLeg
unfoldable pub session_for_leg : World → String → Option ℕ
session_for_leg w leg = lookup leg w.by_leg

unfoldable pub user_present : (ℕ → Session) → List ℕ → String → Bool
user_present f [] user = false
user_present f (s ∷ ss) user = (f s).username == user || user_present f ss user
