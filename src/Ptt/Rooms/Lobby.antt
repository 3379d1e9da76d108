-- ===== src/Ptt/Rooms/Lobby.antt =====
-- The lobby against the door.
use mathlib.Core.Path.{subst}
use example_applications.Base.{
  ℕ, String, ◌==◌, string_eq, ◌≡◌, refl, ◌⊎◌, inl, inr, Bool, false, not, ◌||◌, Option, none, some,
  List, [], ◌∷◌, Table, lookup, insert, erase, All, arith, eq_iff, Bool-cases, Option-cases,
  if◌then◌else◌, map, sym,
}
use example_applications.Ptt.Rooms.{
  Texts, World, Room, RoomView, Request, Event, creates, sets_roger, deletes, joins, private,
  public, create, set_roger, delete, admit, get, norm_roger, join_by_code, can_access, views_of,
  visible_to, new_room, new_world, step, run,
}

-- The room is public or private; `create` makes no other.
abbrev HasDoor : String × Room → Type 0
HasDoor (id, room) = (room.visibility ≡ public) ⊎ (room.visibility ≡ private)

-- The rooms of a table that `canAccess` lets a user into.
abbrev pub enterable : Texts → World → String → Table Room → List String
enterable x w username [] = []
enterable x w username ((id, room) ∷ rest) =
    let later = enterable x w username rest in
    if can_access x w room username then room.id ∷ later else later

views_of-enterable :
    (x : Texts) (w : World) (username : String) (present : String → ℕ) (rooms : Table Room)
    → All HasDoor rooms
    → map (λ (v : RoomView). v.id) (views_of x w username present rooms)
      ≡ enterable x w username rooms
unfolding views_of can_access
views_of-enterable x w username present [] h = refl
views_of-enterable x w username present ((id, room) ∷ rest) (here, later) =
    let same = views_of-enterable x w username present rest later in
    elim here [
      | inl p ↦
          let seen : (room.visibility == private) ≡ false = rw p in
          ground (arith, same, eq_iff room.visibility public)
      | inr p ↦
          let hidden : (room.visibility == public) ≡ false = rw p in
          ground (arith, same, eq_iff room.visibility private)
    ]

erase-HasDoor :
    (id : String) (rooms : Table Room) → All HasDoor rooms → All HasDoor (erase id rooms)
unfolding erase
erase-HasDoor id [] h = tt
erase-HasDoor id ((j, room) ∷ rest) (here, later) = elim (Bool-cases (j == id)) [
  | inl p ↦ rw (p, erase) (erase-HasDoor id rest later)
  | inr p ↦ rw (p, erase) (here, erase-HasDoor id rest later)
]

lookup-HasDoor :
    (id : String) (rooms : Table Room) (room : Room)
    → All HasDoor rooms
    → lookup id rooms ≡ some room
    → HasDoor (id, room)
unfolding lookup
lookup-HasDoor id [] room h p = absurd (ground arith)
lookup-HasDoor id ((j, r) ∷ rest) room (here, later) p =
    ground (arith, lookup-HasDoor id rest room later)

same-HasDoor : {rooms rooms' : Table Room} → rooms ≡ rooms' → All HasDoor rooms' → All HasDoor rooms
same-HasDoor e h = subst (λ (t : Table Room). All HasDoor t) (sym e) h

new_room-HasDoor :
    (x : Texts) (q : Request) (id code now : String) → HasDoor (id, new_room x q id code now)
unfolding new_room
new_room-HasDoor x q id code now = elim (Bool-cases (q.visibility == private)) [
  | inl p ↦ inr (ground (arith, eq_iff q.visibility private))
  | inr p ↦ inl (ground arith)
]

create-HasDoor :
    (x : Texts) (w : World) (q : Request) (id code now : String) (saved : Bool)
    → All HasDoor w.rooms
    → All HasDoor (create x w q id code now saved).0.rooms
unfolding create insert
create-HasDoor x w q id code now saved h =
    let grown : All HasDoor (insert id (new_room x q id code now) w.rooms) =
      (new_room-HasDoor x q id code now, erase-HasDoor id w.rooms h) in
    elim (Bool-cases (x.trim_space q.name == "" || not saved)) [
      | inl p ↦ same-HasDoor {rooms' = w.rooms} (ground arith) h
      | inr p ↦
          same-HasDoor {rooms' = insert id (new_room x q id code now) w.rooms} (ground arith) grown
    ]

join_by_code-HasDoor :
    (x : Texts) (w : World) (code name : String) (resolved : Option String) (added : Bool)
    → (join_by_code x w code name resolved added).0.rooms ≡ w.rooms
unfolding join_by_code admit get
join_by_code-HasDoor x w code name none added = ground arith
join_by_code-HasDoor x w code name (some to) added = ground arith

step-HasDoor :
    (x : Texts) (w : World) (e : Event) → All HasDoor w.rooms → All HasDoor (step x w e).rooms
unfolding step set_roger delete insert
step-HasDoor x w (creates q id code now saved) h = create-HasDoor x w q id code now saved h
step-HasDoor x w (sets_roger id roger saved) h = elim (Option-cases (lookup id w.rooms)) [
  | inl p ↦ same-HasDoor {rooms' = w.rooms} (ground arith) h
  | inr (old, p) ↦
      same-HasDoor {rooms' = insert id (record old { roger = norm_roger roger }) w.rooms}
        (ground arith) (lookup-HasDoor id w.rooms old h p, erase-HasDoor id w.rooms h)
]
step-HasDoor x w (deletes id deleted) h = elim (Option-cases (lookup id w.rooms)) [
  | inl p ↦ same-HasDoor {rooms' = w.rooms} (ground arith) h
  | inr (old, p) ↦
      same-HasDoor {rooms' = erase id w.rooms} (ground arith) (erase-HasDoor id w.rooms h)
]
step-HasDoor x w (joins code name resolved added) h =
    same-HasDoor (join_by_code-HasDoor x w code name resolved added) h

run-HasDoor :
    (x : Texts) (w : World) (es : List Event) → All HasDoor w.rooms → All HasDoor (run x w es).rooms
unfolding run
run-HasDoor x w [] h = h
run-HasDoor x w (e ∷ es) h = run-HasDoor x (step x w e) es (step-HasDoor x w e h)

-- The lobby shows a user exactly the rooms whose door is open to that user, after any events from an
-- empty store: hidden are just those that canAccess refuses. The order is not considered.
pub visible_to-can_access :
    (x : Texts) (es : List Event) (username : String) (present : String → ℕ)
    → map (λ (v : RoomView). v.id) (visible_to x (run x new_world es) username present)
      ≡ enterable x (run x new_world es) username (run x new_world es).rooms
unfolding visible_to new_world
visible_to-can_access x es username present =
    let w = run x new_world es in
    views_of-enterable x w username present w.rooms (run-HasDoor x new_world es tt)
