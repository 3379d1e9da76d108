-- ===== src/Ptt/Rooms.antt =====
-- cmd/ptt/rooms.go: the rooms and who was admitted to them. Go's text functions, the random ids and
-- the answers of Redis are arguments: a Boolean says whether a write succeeded. A method that takes
-- the mutex twice is one function here where the part between is a request to Redis.
use example_applications.Base.{
  ℕ, String, ◌==◌, string_eq, Bool, true, false, not, ◌&&◌, ◌||◌, Option, none, some, List, [], ◌∷◌,
  Table, lookup, insert, erase, Result, ok, err, if◌then◌else◌,
}
pub mod Access
pub mod Lobby

abbrev pub public : String
public = "public"

abbrev pub private : String
private = "private"

-- strings.ToLower, strings.TrimSpace and strings.EqualFold.
pub record Texts : Type 0 where
  pub lower : String → String
  pub trim_space : String → String
  pub equal_fold : String → String → Bool

-- errRoomNotFound, errBadName, and an error of Redis.
pub data RoomError : Type 0 where
  room_not_found bad_name store_failed : RoomError

abbrev pub has_name : List String → String → Bool
has_name [] u = false
has_name (x ∷ xs) u = x == u || has_name xs u

-- rogerStyles
abbrev roger_styles : List String
roger_styles =
    "off" ∷ "classic" ∷ "boop" ∷ "honk" ∷ "quindar" ∷ "nasa" ∷ "cuckoo" ∷ "nextel" ∷ "bumblebee"
    ∷ "piano" ∷ "shootingstar" ∷ "stardust" ∷ "wasp" ∷ "tumbleweed" ∷ "doorbell" ∷ "chirp"
    ∷ "descending" ∷ []

-- normRoger
unfoldable pub norm_roger : String → String
norm_roger s = if has_name roger_styles s then s else "classic"

pub record Room : Type 0 where
  pub id : String
  pub name : String
  pub owner : String
  pub visibility : String
  pub invite_code : String
  pub roger : String
  pub created_at : String
  pub radio : Bool
  pub radio_low : ℕ
  pub radio_high : ℕ

-- `roomRegistry`; the set of a room's members is the list of their names in lower case.
pub record World : Type 0 where
  pub rooms : Table Room
  pub members : Table (List String)

unfoldable pub new_world : World
new_world = record { rooms = []; members = [] }

-- What `create` is given.
pub record Request : Type 0 where
  pub name : String
  pub owner : String
  pub visibility : String
  pub roger : String
  pub radio : Bool

unfoldable pub new_room : Texts → Request → String → String → String → Room
unfolding norm_roger
new_room x q id code now = record {
  id = id;
  name = x.trim_space q.name;
  owner = q.owner;
  visibility = if not (q.visibility == private) then public else q.visibility;
  invite_code = code;
  roger = norm_roger q.roger;
  created_at = now;
  radio = q.radio;
  radio_low = if q.radio then 500 else 0;
  radio_high = if q.radio then 2000 else 0;
}

-- `create`
unfoldable pub create :
    Texts → World → Request → String → String → String → Bool → World × Result RoomError Room
unfolding new_room
create x w q id code now saved =
    let room = new_room x q id code now in
    if x.trim_space q.name == ""
    then (w, err bad_name)
    else if not saved
    then (w, err store_failed)
    else (
      record {
        rooms = insert id room w.rooms;
        members = insert id (x.lower q.owner ∷ []) w.members;
      },
      ok room,
    )

unfoldable pub get : World → String → Option Room
get w id = lookup id w.rooms

-- `setRoger`: the room is changed also if it cannot be saved.
unfoldable pub set_roger : World → String → String → Bool → World × Result RoomError Room
unfolding norm_roger
set_roger w id roger saved = elim (lookup id w.rooms) [
  | none ↦ (w, err room_not_found)
  | some room ↦
      let changed : Room = record room { roger = norm_roger roger } in
      (
        record w { rooms = insert id changed w.rooms },
        if saved then ok changed else err store_failed,
      )
]

-- `delete`: the room is gone here also if Redis fails.
unfoldable pub delete : World → String → Bool → World × Option RoomError
delete w id deleted = elim (lookup id w.rooms) [
  | none ↦ (w, some room_not_found)
  | some room ↦ (
    record { rooms = erase id w.rooms; members = erase id w.members },
    if deleted then none else some store_failed,
  )
]

abbrev pub members_of : World → String → List String
members_of w id = elim (lookup id w.members) [ none ↦ [] | some set ↦ set ]

-- `admit`
unfoldable pub admit : Texts → World → String → String → Bool → World × Option RoomError
admit x w id username added =
    if not added
    then (w, some store_failed)
    else (record w { members = insert id (x.lower username ∷ members_of w id) w.members }, none)

-- `joinByCode`; Redis resolves the code to the id of a room, "" if it is unknown, or fails.
unfoldable pub join_by_code :
    Texts → World → String → String → Option String → Bool → World × Result RoomError Room
unfolding admit get
join_by_code x w code username resolved added =
    if x.trim_space code == "" then (w, err room_not_found) else elim resolved [
      | none ↦ (w, err store_failed)
      | some id ↦ if id == "" then (w, err room_not_found) else elim (get w id) [
        | none ↦ (w, err room_not_found)
        | some room ↦
            let (w', failed) = admit x w room.id username added in
            (w', elim failed [ none ↦ ok room | some e ↦ err e ])
      ]
    ]

-- canAccess
unfoldable pub can_access : Texts → World → Room → String → Bool
can_access x w room username =
    if room.visibility == public
    then true
    else if x.equal_fold room.owner username
    then true
    else has_name (members_of w room.id) (x.lower username)

-- roomView
pub record RoomView : Type 0 where
  pub id : String
  pub name : String
  pub owner : String
  pub visibility : String
  pub present : ℕ
  pub owned : Bool

-- The loop of `visibleTo`; the order in which the lobby sorts the rooms is left out.
unfoldable pub views_of : Texts → World → String → (String → ℕ) → Table Room → List RoomView
views_of x w username present [] = []
views_of x w username present ((id, room) ∷ rest) =
    let owned = x.equal_fold room.owner username in
    let member = has_name (members_of w room.id) (x.lower username) in
    let later = views_of x w username present rest in
    if room.visibility == private && (not owned && not member)
    then later
    else record {
      id = room.id;
      name = room.name;
      owner = room.owner;
      visibility = room.visibility;
      present = present room.id;
      owned = owned;
    }
      ∷ later

-- visibleTo
unfoldable pub visible_to : Texts → World → String → (String → ℕ) → List RoomView
unfolding views_of
visible_to x w username present = views_of x w username present w.rooms

pub data Event : Type 0 where
  creates : (q : Request) (id code now : String) (saved : Bool) → Event
  sets_roger : (id roger : String) (saved : Bool) → Event
  deletes : (id : String) (deleted : Bool) → Event
  joins : (code username : String) (resolved : Option String) (added : Bool) → Event

unfoldable pub step : Texts → World → Event → World
unfolding create set_roger delete join_by_code
step x w (creates q id code now saved) = (create x w q id code now saved).0
step x w (sets_roger id roger saved) = (set_roger w id roger saved).0
step x w (deletes id deleted) = (delete w id deleted).0
step x w (joins code username resolved added) = (join_by_code x w code username resolved added).0

unfoldable pub run : Texts → World → List Event → World
unfolding step
run x w [] = w
run x w (e ∷ es) = run x (step x w e) es
