-- ===== src/ContactCentre/Handlers/ConsultRooms.antt =====
-- Which legs the media server hangs up because their consult room is deleted under them.
use text.Mathlib.TextPositions.{compare_refl}
use example_applications.Base.{
  String, ◌==◌, string_eq, ◌≡◌, refl, Bool, true, false, not, ◌&&◌, ◌||◌, none, some, List, [], ◌∷◌,
  ◌++◌, lookup, arith, insert_at, if◌then◌else◌,
}
use example_applications.ContactCentre.Registry.{lookup_call}
use example_applications.ContactCentre.Transfers
use example_applications.ContactCentre.Transfers.{
  Transfer, complete, completed, is_consulting, transition,
}
use example_applications.ContactCentre.Handlers.{
  Env, is_done, is_refused, Reason, customer_dropped, failed, cleared, Act, deletes_room, adds_leg,
  removes_leg, World, Message, tell_target, tell_originator,
}
use example_applications.ContactCentre.Handlers.Flow.{bring_up_consult}
use example_applications.ContactCentre.Handlers.Ends.{tell_failed, complete_attended}

abbrev without : String → List String → List String
without leg [] = []
without leg (x ∷ xs) = let rest = without leg xs in if x == leg then rest else x ∷ rest

-- The legs that are in the room when it is deleted, from those that are in it before. A leg stays in if
-- the server refuses to remove it.
unfoldable pub hung_up : Env → String → List String → List Act → List String
hung_up v room inside [] = []
hung_up v room inside (adds_leg r l ∷ acts) =
    hung_up v room (if r == room && is_done (v.add_leg r l) then l ∷ inside else inside) acts
hung_up v room inside (removes_leg r l ∷ acts) =
    hung_up v room
      (if r == room && not (is_refused (v.remove_leg r l)) then without l inside else inside) acts
hung_up v room inside (deletes_room r ∷ acts) =
    let gone = hung_up v room [] acts in
    let kept = hung_up v room inside acts in if r == room then inside ++ gone else kept
hung_up v room inside (act ∷ acts) = hung_up v room inside acts

-- Some room is deleted.
abbrev pub deletes : List Act → Bool
deletes [] = false
deletes (deletes_room r ∷ acts) = true
deletes (act ∷ acts) = deletes acts

deletes-append : (xs ys : List Act) → deletes (xs ++ ys) ≡ (deletes xs || deletes ys)
deletes-append [] ys = refl
deletes-append (x ∷ xs) ys = ground (arith, deletes-append xs ys)

tell_originator-deletes :
    (v : Env) (who : String) (m : Message) → deletes (tell_originator v who m) ≡ false
unfolding tell_originator
tell_originator-deletes v who m = ground arith

tell_target-deletes : (t : Transfer) (m : Message) → deletes (tell_target t m) ≡ false
unfolding tell_target
tell_target-deletes t m = ground arith

-- The legs in the consult room are those of the originator and the target, which have ids.
abbrev pub AreKnown : Transfer → Type 0
AreKnown t = ((t.from_leg_id == "") ≡ false) × ((t.target_leg_id == "") ≡ false)

-- The server removes them from the consult room, or does not find them there.
abbrev pub AreRemoved : Env → Transfer → Type 0
AreRemoved v t =
    (is_refused (v.remove_leg t.consult_room_id t.from_leg_id) ≡ false)
    × (is_refused (v.remove_leg t.consult_room_id t.target_leg_id) ≡ false)

deletes-tell_failed :
    (v : Env) (t : Transfer) (reason : Reason) → deletes (tell_failed v t reason) ≡ false
deletes-tell_failed v t reason =
    let originator_told = tell_originator v t.from_agent_id (failed reason) in
    ground (
      arith,
      deletes-append originator_told (tell_target t cleared),
      tell_originator-deletes v t.from_agent_id (failed reason),
      tell_target-deletes t cleared,
    )

-- What bringUpConsultRoom hangs up with a room that it deletes again: nothing, except that where the
-- originator's leg joins and the target's leg does not, it is the originator's leg.
pub bring_up_consult_hangs_up :
    (v : Env) (t : Transfer)
    → hung_up v t.consult_room_id [] (bring_up_consult v t).0 ≡ (
        if (v.create_room t.consult_room_id && is_done (v.add_leg t.consult_room_id t.from_leg_id))
          && not (is_done (v.add_leg t.consult_room_id t.target_leg_id))
        then t.from_leg_id ∷ []
        else [])
unfolding bring_up_consult hung_up
bring_up_consult_hangs_up v t = let same_room = compare_refl t.consult_room_id in ground arith

-- A completion that finds the call of the transfer gone: the transfer stays registered, completed, and no
-- consult room is deleted.
pub complete_attended_leaves_transfer :
    (v : Env) (w : World) (id : String) (t : Transfer)
    → lookup id w.transfers.by_id ≡ some t
    → is_consulting t.state ≡ true
    → lookup_call w.reg t.call_leg_id ≡ none
    → (Transfers.get (complete_attended v w id).0.transfers id
        ≡ some (record t { state = completed }))
      × (deletes (complete_attended v w id).1 ≡ false)
unfolding complete_attended complete transition Transfers.get
complete_attended_leaves_transfer v w id t here talks gone =
    let done = record t { state = completed } in
    let at_id = insert_at id id done w.transfers.by_id in
    let told = deletes-tell_failed v done customer_dropped in (ground arith, ground arith)
