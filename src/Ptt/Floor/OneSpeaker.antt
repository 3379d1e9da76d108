-- ===== src/Ptt/Floor/OneSpeaker.antt =====
-- Handlers that run one after another: at most one session of a room speaks, and it holds the floor.
use example_applications.Base.{
  ℕ, String, ◌==◌, string_eq, nat_eq, ◌≡◌, ◌≢◌, ◌⊎◌, inl, inr, refl, ap, ◌∙◌, Bool, true, false,
  Option, none, some, List, [], ◌∷◌, arith, lookup, insert, erase, insert_at, erase_at,
  if◌then◌else◌, Bool-cases, Option-cases,
}
use example_applications.Ptt.Presence.{
  Role, no_role, speaker, listener, Session, World, create_room, delete_room, floor_granted,
  speaking, set_role, send, command, mem, members, unbind_leg, session_for_leg, without, remove,
  add,
}
use example_applications.Ptt.Floor.{
  broadcast_to, broadcast_speaker, press_claim, start_listeners, press_open, press, end_claim,
  stop_member, start_listener, stop_members, teardown, end_burst, release, offer, offer_start,
  offer_finish, on_join, disconnect, Event, joins, presses, releases, leaves, offers, legs_gone,
  handle, run, drop_listener, leave, leg_gone,
}

abbrev pub role : World → ℕ → Role
role w j = (w.sessions j).role

abbrev pub room : World → ℕ → String
room w j = (w.sessions j).room_id

-- Who speaks holds the floor of its room, and is present there.
pub record IsOrderly (w : World) : Type 0 where
  pub holds : (j : ℕ) → role w j ≡ speaker → lookup (room w j) w.active ≡ some j
  pub present : (j : ℕ) → role w j ≡ speaker → mem j (members w (room w j)) ≡ true

-- What the media work leaves alone.
pub record Keeps (w w' : World) : Type 0 where
  pub index : w'.by_room ≡ w.by_room
  pub floor : w'.active ≡ w.active
  pub rooms : (j : ℕ) → room w' j ≡ room w j

Keeps-trans : (w w' w'' : World) → Keeps w w' → Keeps w' w'' → Keeps w w''
Keeps-trans w w' w'' k l = record {
  index = l.index ∙ k.index;
  floor = l.floor ∙ k.floor;
  rooms = λ j. l.rooms j ∙ k.rooms j;
}

set_role-Keeps : (w : World) (s : ℕ) (r : Role) → Keeps w (set_role w s r)
unfolding set_role
set_role-Keeps w s r = record { index = refl; floor = refl; rooms = λ j. ground arith }

broadcast_same :
    (w : World) (ms : List ℕ) (user : String)
    → Keeps w (broadcast_to w ms user) × ((broadcast_to w ms user).sessions ≡ w.sessions)
unfolding broadcast_to send
broadcast_same w [] user = (record { index = refl; floor = refl; rooms = λ j. refl }, refl)
broadcast_same w (m ∷ ms) user =
    let (k, e) = broadcast_same (send w m (speaking user)) ms user in
    (record { index = k.index; floor = k.floor; rooms = k.rooms }, e)

start_listener-Keeps : (w : World) (s m : ℕ) → Keeps w (start_listener w s m)
unfolding start_listener
start_listener-Keeps w s m = record {
  index = ground arith;
  floor = ground arith;
  rooms = λ j. ground arith;
}

start_listeners-Keeps : (w : World) (s : ℕ) (ms : List ℕ) → Keeps w (start_listeners w s ms)
unfolding start_listeners
start_listeners-Keeps w s [] = record { index = refl; floor = refl; rooms = λ j. refl }
start_listeners-Keeps w s (m ∷ ms) =
    Keeps-trans w (start_listener w s m) _ (start_listener-Keeps w s m)
      (start_listeners-Keeps (start_listener w s m) s ms)

-- A session's role stays, or becomes listener, which is not done to the speaker.
abbrev Listens : World → World → ℕ → ℕ → Type 0
Listens w w' s j = (role w' j ≡ role w j) ⊎ ((role w' j ≡ listener) × (s ≢ j))

start_listener-role : (w : World) (s m j : ℕ) → Listens w (start_listener w s m) s j
unfolding start_listener
start_listener-role w s m j = ground arith

start_listeners-role : (w : World) (s j : ℕ) (ms : List ℕ) → Listens w (start_listeners w s ms) s j
unfolding start_listeners
start_listeners-role w s j [] = inl refl
start_listeners-role w s j (m ∷ ms) =
    ground (arith, start_listener-role w s m j, start_listeners-role (start_listener w s m) s j ms)

stop_member-Keeps : (w : World) (m : ℕ) → Keeps w (stop_member w m)
unfolding stop_member
stop_member-Keeps w m = record {
  index = ground arith;
  floor = ground arith;
  rooms = λ j. ground arith;
}

stop_member-role :
    (w : World) (m j : ℕ)
    → ((m ≡ j) × (role (stop_member w m) j ≡ no_role))
      ⊎ ((m ≢ j) × (role (stop_member w m) j ≡ role w j))
unfolding stop_member
stop_member-role w m j = ground arith

stop_members-Keeps : (w : World) (ms : List ℕ) → Keeps w (stop_members w ms)
unfolding stop_members
stop_members-Keeps w [] = record { index = refl; floor = refl; rooms = λ j. refl }
stop_members-Keeps w (m ∷ ms) =
    Keeps-trans w (stop_member w m) _ (stop_member-Keeps w m)
      (stop_members-Keeps (stop_member w m) ms)

-- A stopped session has no role, and the others keep theirs.
pub stop_members-role :
    (w : World) (j : ℕ) (ms : List ℕ)
    → role (stop_members w ms) j ≡ (if mem j ms then no_role else role w j)
unfolding stop_members
stop_members-role w j [] = refl
stop_members-role w j (m ∷ ms) =
    ground (arith, stop_member-role w m j, stop_members-role (stop_member w m) j ms)

pub teardown-Keeps : (w : World) (r : String) → Keeps w (teardown w r)
unfolding teardown
teardown-Keeps w r =
    let stopped = command (stop_members w (members w r)) (delete_room r) in
    let k = stop_members-Keeps w (members w r) in
    Keeps-trans w stopped _ (record { index = k.index; floor = k.floor; rooms = k.rooms })
      (broadcast_same stopped (members stopped r) "").0

pub teardown-role :
    (w : World) (r : String) (j : ℕ)
    → role (teardown w r) j ≡ (if mem j (members w r) then no_role else role w j)
unfolding teardown
teardown-role w r j =
    let stopped = command (stop_members w (members w r)) (delete_room r) in
    let e = (broadcast_same stopped (members stopped r) "").1 in
    ground (arith, ap (λ (f : ℕ → Session). (f j).role) e, stop_members-role w j (members w r))

-- A change of the store that keeps the rooms, the index and the floor, and lets nobody speak anew.
Keeps-IsOrderly :
    (w w' : World)
    → Keeps w w'
    → ((j : ℕ) → role w' j ≡ speaker → role w j ≡ speaker)
    → IsOrderly w
    → IsOrderly w'
unfolding members
Keeps-IsOrderly w w' k down v = record {
  holds = λ j h. rw (k.floor, k.rooms j) (v.holds j (down j h));
  present = λ j h. rw (k.index, k.rooms j) (v.present j (down j h));
}

-- The floor of a room is given up, and every member of the room is stopped.
release_room-IsOrderly :
    (w : World) (r : String)
    → IsOrderly w
    → IsOrderly (teardown (record w { active = erase r w.active }) r)
unfolding members
release_room-IsOrderly w r v = record {
  holds = λ j h.
      rw (k.floor, k.rooms j)
        (ground (arith, before j h, erase_at r (room w j) w.active, v.holds j, v.present j));
  present = λ j h. rw (k.index, k.rooms j) (v.present j (before j h).0);
}
  where
    cleared : World
    cleared = record w { active = erase r w.active }

    k : Keeps cleared (teardown cleared r)
    k = teardown-Keeps cleared r

    before :
        (j : ℕ)
        → role (teardown cleared r) j ≡ speaker
        → (role w j ≡ speaker) × (mem j (members w r) ≡ false)
    before j h = ground (arith, teardown-role cleared r j)

end_burst-IsOrderly : (w : World) (s : ℕ) → IsOrderly w → IsOrderly (end_burst w s).0
unfolding end_burst end_claim
end_burst-IsOrderly w s v = elim (Option-cases (lookup (room w s) w.active)) [
  | inl e ↦ rw (e, end_burst, end_claim) v
  | inr (holder, e) ↦ elim (Bool-cases (holder == s)) [
    | inl same ↦ rw (e, same, end_burst, end_claim) (release_room-IsOrderly w (room w s) v)
    | inr other ↦ rw (e, other, end_burst, end_claim) v
  ]
]

-- A press that opens its room keeps the index and the floor.
pub press_open-true-Keeps : (w : World) (s : ℕ) → Keeps w (press_open w s true)
unfolding press_open
press_open-true-Keeps w s =
    Keeps-trans w granted _ (record { index = refl; floor = refl; rooms = λ j. ground arith })
      (Keeps-trans granted told _ (start_listeners-Keeps granted s (members granted (room w s)))
        (broadcast_same told (members told (room w s)) (w.sessions s).username).0)
  where
    granted : World
    granted = send (set_role (command w (create_room (room w s))) s speaker) s floor_granted

    told : World
    told = start_listeners granted s (members granted (room w s))

press_open-IsOrderly :
    (w : World) (s : ℕ) (opened : Bool)
    → mem s (members w (room w s)) ≡ true
    → lookup (room w s) w.active ≡ none
    → IsOrderly w
    → IsOrderly (press_open (record w { active = insert (room w s) s w.active }) s opened)
unfolding press_open members
press_open-IsOrderly w s false here free v = record {
  holds = λ j h. ground (
    arith,
    erase_at (room w s) (room w j) (insert (room w s) s w.active),
    insert_at (room w s) (room w j) s w.active,
    v.holds j,
  );
  present = λ j h. v.present j h;
}
press_open-IsOrderly w s true here free v = record {
  holds = λ j h.
      rw (k.floor, k.rooms j)
        (ground (arith, before j h, insert_at (room w s) (room w j) s w.active, v.holds j));
  present = λ j h. rw (k.index, k.rooms j) (ground (arith, before j h, v.present j));
}
  where
    claimed : World
    claimed = command (record w { active = insert (room w s) s w.active }) (create_room (room w s))

    granted : World
    granted = send (set_role claimed s speaker) s floor_granted

    told : World
    told = start_listeners granted s (members granted (room w s))

    final : World
    final = broadcast_speaker told (room w s) (w.sessions s).username

    k : Keeps claimed final
    k =
        Keeps-trans claimed granted final
          (record { index = refl; floor = refl; rooms = λ j. ground arith })
          (Keeps-trans granted told final
            (start_listeners-Keeps granted s (members granted (room w s)))
            (broadcast_same told (members told (room w s)) (w.sessions s).username).0)

    before : (j : ℕ) → role final j ≡ speaker → (s ≡ j) ⊎ ((s ≢ j) × (role w j ≡ speaker))
    before j h = ground (
      arith,
      ap (λ (f : ℕ → Session). (f j).role)
          (broadcast_same told (members told (room w s)) (w.sessions s).username).1,
      start_listeners-role granted s j (members granted (room w s)),
    )

press-IsOrderly :
    (w : World) (s : ℕ) (opened : Bool)
    → mem s (members w (room w s)) ≡ true
    → IsOrderly w
    → IsOrderly (press w s opened)
unfolding press
press-IsOrderly w s opened here v = elim (Option-cases (lookup (room w s) w.active)) [
  | inl e ↦ rw (e, press, press_claim) (press_open-IsOrderly w s opened here e v)
  | inr (holder, e) ↦
      rw (e, press, press_claim)
        (Keeps-IsOrderly w _ (record { index = refl; floor = refl; rooms = λ j. refl }) (λ j h. h)
          v)
]

on_join-IsOrderly : (w : World) (s : ℕ) → IsOrderly w → IsOrderly (on_join w s)
unfolding on_join members
on_join-IsOrderly w s v =
    Keeps-IsOrderly w (on_join w s)
      (record { index = ground arith; floor = ground arith; rooms = λ j. ground arith })
      (λ j h. ground arith) v

unbind-IsOrderly : (w : World) (s : ℕ) → IsOrderly w → IsOrderly (unbind_leg w s)
unfolding unbind_leg
unbind-IsOrderly w s v =
    Keeps-IsOrderly w (unbind_leg w s)
      (record { index = refl; floor = refl; rooms = λ j. ground arith }) (λ j h. ground arith) v

offer_finish-IsOrderly :
    (w : World) (s : ℕ) (r : Role) (answer : Option String)
    → IsOrderly w
    → IsOrderly (offer_finish w s r answer)
unfolding offer_finish
offer_finish-IsOrderly w s r answer v =
    Keeps-IsOrderly w (offer_finish w s r answer)
      (record { index = ground arith; floor = ground arith; rooms = λ j. ground arith })
      (λ j h. ground arith) v

offer_start-IsOrderly :
    (w : World) (s : ℕ) (sdp : String) → IsOrderly w → IsOrderly (offer_start w s sdp).0
unfolding offer_start
offer_start-IsOrderly w s sdp v =
    Keeps-IsOrderly w (offer_start w s sdp).0
      (record { index = ground arith; floor = ground arith; rooms = λ j. ground arith })
      (λ j h. ground arith) v

leg_gone-IsOrderly : (w : World) (leg : String) → IsOrderly w → IsOrderly (leg_gone w leg)
unfolding leg_gone
leg_gone-IsOrderly w leg v = elim (Option-cases (session_for_leg w leg)) [
  | inl e ↦ rw (e, leg_gone) v
  | inr (s, e) ↦ rw (e, leg_gone) (end_burst-IsOrderly (unbind_leg w s) s (unbind-IsOrderly w s v))
]

drop_listener-IsOrderly : (w : World) (s : ℕ) → IsOrderly w → IsOrderly (drop_listener w s)
unfolding drop_listener
drop_listener-IsOrderly w s v =
    Keeps-IsOrderly w (drop_listener w s)
      (record { index = ground arith; floor = ground arith; rooms = λ j. ground arith })
      (λ j h. ground arith) v

leave-IsOrderly : (w : World) (s : ℕ) → IsOrderly w → IsOrderly (leave w s)
unfolding leave
leave-IsOrderly w s v =
    let v' = end_burst-IsOrderly w s v in
    elim (Bool-cases (end_burst w s).1) [
      | inl q ↦ rw (q, leave) v'
      | inr q ↦ rw (q, leave) (drop_listener-IsOrderly (end_burst w s).0 s v')
    ]

-- Who leaves does not speak.
drop_listener-role : (w : World) (s : ℕ) → role (drop_listener w s) s ≡ no_role
unfolding drop_listener
drop_listener-role w s = ground arith

end_burst-true-role :
    (w : World) (s : ℕ)
    → IsOrderly w
    → (end_burst w s).1 ≡ true
    → role (end_burst w s).0 s ≢ speaker
unfolding end_burst end_claim members
end_burst-true-role w s v h = elim (Option-cases (lookup (room w s) w.active)) [
  | inl e ↦ absurd (ground arith)
  | inr (holder, e) ↦ elim (Bool-cases (holder == s)) [
    | inr other ↦ absurd (ground arith)
    | inl same ↦
        rw (e, same, end_burst, end_claim)
          (λ q. ground (
            arith,
            v.present s,
            teardown-role (record w { active = erase (room w s) w.active }) (room w s) s,
          ))
  ]
]

leave-role : (w : World) (s : ℕ) → IsOrderly w → role (leave w s) s ≢ speaker
unfolding leave
leave-role w s v = elim (Bool-cases (end_burst w s).1) [
  | inl q ↦ rw (q, leave) (end_burst-true-role w s v q)
  | inr q ↦ rw (q, leave) (ground (arith, drop_listener-role (end_burst w s).0 s))
]

mem-without : (s j : ℕ) (xs : List ℕ) → s ≢ j → mem j (without s xs) ≡ mem j xs
unfolding without
mem-without s j [] ne = refl
mem-without s j (x ∷ xs) ne = ground (arith, mem-without s j xs ne)

remove-IsOrderly : (w : World) (s : ℕ) → role w s ≢ speaker → IsOrderly w → IsOrderly (remove w s)
unfolding remove members
remove-IsOrderly w s quiet v = record {
  holds = λ j h. v.holds j h;
  present = λ j h.
      let ne : s ≢ j = λ e. quiet (rw e h) in
      let rest = without s (members w (room w s)) in
      ground (
        arith,
        v.present j h,
        mem-without s j (members w (room w s)) ne,
        insert_at (room w s) (room w j) rest w.by_room,
        erase_at (room w s) (room w j) w.by_room,
      );
}

mem-add : (s j : ℕ) (xs : List ℕ) → mem j xs ≡ true → mem j (if mem s xs then xs else s ∷ xs) ≡ true
mem-add s j xs h = ground arith

add-IsOrderly : (w : World) (s : ℕ) → IsOrderly w → IsOrderly (add w s)
unfolding add members
add-IsOrderly w s v = record {
  holds = λ j h. v.holds j h;
  present = λ j h.
      let set = members w (room w s) in
      ground (
        arith,
        v.present j h,
        mem-add s j set,
        insert_at (room w s) (room w j) (if mem s set then set else s ∷ set) w.by_room,
      );
}

-- A press comes from a browser that is present in its room.
abbrev pub IsAllowed : World → Event → Type 0
IsAllowed w (presses s opened) = mem s (members w (room w s)) ≡ true
IsAllowed w _ = Unit

abbrev pub AreAllowed : World → List Event → Type 0
AreAllowed w [] = Unit
AreAllowed w (e ∷ es) = IsAllowed w e × AreAllowed (handle w e) es

offer-IsOrderly :
    (w : World) (s : ℕ) (sdp : String) (answer : Option String)
    → IsOrderly w
    → IsOrderly (offer w s sdp answer)
unfolding offer
offer-IsOrderly w s sdp answer v = elim (Option-cases (offer_start w s sdp).1) [
  | inl e ↦ rw (e, offer) (started s sdp)
  | inr (r, e) ↦
      rw (e, offer) (offer_finish-IsOrderly (offer_start w s sdp).0 s r answer (started s sdp))
]
  where
    started : (s : ℕ) (sdp : String) → IsOrderly (offer_start w s sdp).0
    started s sdp = offer_start-IsOrderly w s sdp v

handle-IsOrderly : (w : World) (e : Event) → IsAllowed w e → IsOrderly w → IsOrderly (handle w e)
unfolding handle release disconnect
handle-IsOrderly w (joins s) a v = on_join-IsOrderly (add w s) s (add-IsOrderly w s v)
handle-IsOrderly w (presses s opened) a v = press-IsOrderly w s opened a v
handle-IsOrderly w (releases s) a v = end_burst-IsOrderly w s v
handle-IsOrderly w (leaves s) a v =
    remove-IsOrderly (leave w s) s (leave-role w s v) (leave-IsOrderly w s v)
handle-IsOrderly w (offers s sdp answer) a v = offer-IsOrderly w s sdp answer v
handle-IsOrderly w (legs_gone leg) a v = leg_gone-IsOrderly w leg v

run-IsOrderly : (w : World) (es : List Event) → AreAllowed w es → IsOrderly w → IsOrderly (run w es)
unfolding run
run-IsOrderly w [] a v = v
run-IsOrderly w (e ∷ es) a v = run-IsOrderly (handle w e) es a.1 (handle-IsOrderly w e a.0 v)

-- Handlers that run one after another, from a state in which no session has a role: a session that
-- speaks holds the floor of its room and is present there, and so two sessions that speak in one
-- room are one. A press comes from a browser that is present in its room.
pub one_speaker_per_room :
    (w : World) (es : List Event) (i j : ℕ)
    → ((k : ℕ) → role w k ≡ no_role)
    → AreAllowed w es
    → let u = run w es in
      role u i ≡ speaker
      → (lookup (room u i) u.active ≡ some i)
        × (mem i (members u (room u i)) ≡ true)
        × (role u j ≡ speaker → room u i ≡ room u j → i ≡ j)
one_speaker_per_room w es i j quiet a h =
    let v = run-IsOrderly w es a (record {
      holds = λ k q. ground (arith, quiet k);
      present = λ k q. ground (arith, quiet k);
    }) in
    (v.holds i h, v.present i h, λ g same. ground (arith, v.holds i h, v.holds j g))
