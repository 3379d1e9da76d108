-- ===== src/Ptt/Rooms/Access.antt =====
-- How one comes to be a member of a room.
use example_applications.Base.{
  String, ◌==◌, string_eq, ◌≡◌, ◌≢◌, ◌⊎◌, inl, inr, Bool, true, none, some, List, [], ◌∷◌, lookup,
  arith, eq_iff, lookup-insert, lookup-erase, lookup-nil, Bool-cases, Option-cases,
}
use example_applications.Ptt.Rooms.{
  Texts, World, Room, Event, creates, sets_roger, deletes, joins, has_name, members_of, public, get,
  create, set_roger, delete, admit, join_by_code, can_access, new_world, new_room, norm_roger, step,
  run,
}

-- `P` holds of some event.
abbrev pub Any : (Event → Type 0) → List Event → Type 0
Any P [] = ⊥
Any P (e ∷ es) = P e ⊎ Any P es

-- Every room stands under its own id.
abbrev IsKeyed : World → Type 0
IsKeyed w = (id : String) (room : Room) → lookup id w.rooms ≡ some room → room.id ≡ id

-- The event makes the user a member of the room, and Redis has saved that: as the founder of the room,
-- or by a code that Redis resolved to it.
abbrev pub Admits : Texts → String → String → Event → Type 0
Admits x id username (creates q room code now saved) =
    (room ≡ id) × (x.lower q.owner ≡ x.lower username) × (saved ≡ true)
Admits x id username (joins code name resolved added) =
    (resolved ≡ some id)
    × (x.lower name ≡ x.lower username)
    × (x.trim_space code ≢ "")
    × (added ≡ true)
Admits x id username _ = ⊥

abbrev IsMember : Texts → World → String → String → Type 0
IsMember x w id username = has_name (members_of w id) (x.lower username) ≡ true

step-IsKeyed : (x : Texts) (w : World) (e : Event) → IsKeyed w → IsKeyed (step x w e)
unfolding step create new_room set_roger delete join_by_code admit get
step-IsKeyed x w (creates q id code now saved) h j room r =
    ground (arith, h j room, lookup-insert id j (new_room x q id code now) w.rooms, eq_iff id j)
step-IsKeyed x w (sets_roger id roger saved) h j room r = elim (Option-cases (lookup id w.rooms)) [
  | inl p ↦ h j room (rw (p, step, set_roger) at r)
  | inr (old, p) ↦ ground (
    arith,
    h j room,
    h id old,
    lookup-insert id j (record old { roger = norm_roger roger }) w.rooms,
    eq_iff id j,
  )
]
step-IsKeyed x w (deletes id deleted) h j room r = elim (Option-cases (lookup id w.rooms)) [
  | inl p ↦ h j room (rw (p, step, delete) at r)
  | inr (old, p) ↦ ground (arith, h j room, lookup-erase id j w.rooms)
]
step-IsKeyed x w (joins code username resolved added) h j room r = ground (arith, h j room)

admit-IsMember :
    (x : Texts) (w : World) (room name id username : String) (added : Bool)
    → IsMember x (admit x w room name added).0 id username
    → IsMember x w id username ⊎ ((room ≡ id) × (x.lower name ≡ x.lower username) × (added ≡ true))
unfolding admit
admit-IsMember x w room name id username added h = ground (
  arith,
  lookup-insert room id (x.lower name ∷ members_of w room) w.members,
  eq_iff room id,
  eq_iff (x.lower name) (x.lower username),
)

run-IsKeyed : (x : Texts) (w : World) (es : List Event) → IsKeyed w → IsKeyed (run x w es)
unfolding run
run-IsKeyed x w [] h = h
run-IsKeyed x w (e ∷ es) h = run-IsKeyed x (step x w e) es (step-IsKeyed x w e h)

step-Admits :
    (x : Texts) (w : World) (e : Event) (id username : String)
    → IsKeyed w
    → IsMember x (step x w e) id username
    → IsMember x w id username ⊎ Admits x id username e
unfolding step create set_roger delete join_by_code admit get
step-Admits x w (creates q room code now saved) id username k h = ground (
  arith,
  lookup-insert room id (x.lower q.owner ∷ []) w.members,
  eq_iff room id,
  eq_iff (x.lower q.owner) (x.lower username),
)
step-Admits x w (sets_roger room roger saved) id username k h =
    elim (Option-cases (lookup room w.rooms)) [
      | inl p ↦ inl (ground arith)
      | inr (old, p) ↦ inl (ground arith)
    ]
step-Admits x w (deletes room deleted) id username k h = elim (Option-cases (lookup room w.rooms)) [
  | inl p ↦ inl (ground arith)
  | inr (old, p) ↦ inl (ground (arith, lookup-erase room id w.members))
]
step-Admits x w (joins code name none added) id username k h = inl (ground arith)
step-Admits x w (joins code name (some to) added) id username k h =
    elim (Bool-cases (x.trim_space code == "")) [
      | inl p ↦ inl (ground arith)
      | inr p ↦ elim (Bool-cases (to == "")) [
        | inl q ↦ inl (ground arith)
        | inr q ↦ elim (Option-cases (lookup to w.rooms)) [
          | inl r ↦ inl (ground arith)
          | inr (room, r) ↦
              elim (admit-IsMember x w room.id name id username added (ground arith)) [
                | inl old ↦ inl old
                | inr (here, same, kept) ↦ inr (
                  ground (arith, k to room),
                  same,
                  ground (arith, eq_iff (x.trim_space code) ""),
                  kept,
                )
              ]
        ]
      ]
    ]

run-Admits :
    (x : Texts) (w : World) (es : List Event) (id username : String)
    → IsKeyed w
    → IsMember x (run x w es) id username
    → IsMember x w id username ⊎ Any (Admits x id username) es
unfolding run
run-Admits x w [] id username k h = inl h
run-Admits x w (e ∷ es) id username k h =
    elim (run-Admits x (step x w e) es id username (step-IsKeyed x w e k) h) [
      | inr later ↦ inr (inr later)
      | inl now ↦ elim (step-Admits x w e id username k now) [
        | inl before ↦ inl before
        | inr admits ↦ inr (inl admits)
      ]
    ]

-- A private room is closed to strangers. After any events from an empty store, whom canAccess lets
-- into a room that is stored and not public is its owner, has founded a room of that id that Redis
-- saved, or has joined it by a code that Redis resolved to it, with the membership saved by Redis;
-- names count as the same if they are so in lower case.
pub private_entry_earned :
    (x : Texts) (es : List Event) (id username : String) (room : Room)
    → get (run x new_world es) id ≡ some room
    → room.visibility ≢ public
    → can_access x (run x new_world es) room username ≡ true
    → (x.equal_fold room.owner username ≡ true) ⊎ Any (Admits x id username) es
unfolding new_world get can_access
private_entry_earned x es id username room stored shut entered =
    let keyed : IsKeyed new_world = λ j r p. absurd (ground (arith, lookup-nil {V = Room} j)) in
    let here = run-IsKeyed x new_world es keyed id room stored in
    elim (Bool-cases (x.equal_fold room.owner username)) [
      | inl own ↦ inl own
      | inr other ↦
          elim (run-Admits x new_world es id username keyed
            (rw (← here) (ground (arith, eq_iff room.visibility public)))) [
              | inl never ↦ absurd (ground (arith, lookup-nil {V = List String} id))
              | inr some_event ↦ inr some_event
            ]
    ]
