-- ===== src/Ptt/Examples.antt =====
-- The theorems of floor control at concrete schedules.
use example_applications.Base.{
  nat_eq, string_eq, arith, eq_iff, ◌≡◌, refl, true, none, some, List, [], ◌∷◌, lookup, insert,
  erase,
}
use example_applications.Ptt.Presence.{no_role, Session, World, stop}
use example_applications.Ptt.Floor.{
  Event, joins, presses, press, broadcast_speaker, start_listeners, offer_start, run,
}
use example_applications.Ptt.Floor.OneSpeaker
use example_applications.Ptt.Floor.Interleavings

abbrev radio_user : Session
radio_user = record {
  username = "ann";
  room_id = "r1";
  leg_id = "";
  role = no_role;
  last_ring = none;
}

-- Nobody is present, and every session belongs to one room.
abbrev quiet_world : World
quiet_world = record {
  sessions = λ s. radio_user;
  by_room = [];
  by_leg = [];
  active = [];
  sent = [];
  vsi = [];
}

abbrev morning : List Event
morning = joins 1 ∷ joins 2 ∷ presses 1 true ∷ presses 2 true ∷ []

one_speaker_per_room_example : (lookup "r1" (run quiet_world morning).active ≡ some 1)
unfolding run press broadcast_speaker start_listeners lookup insert erase
one_speaker_per_room_example =
    (OneSpeaker.one_speaker_per_room quiet_world morning 1 2 (λ k. refl)
      (tt, (tt, (refl, (refl, tt)))) refl).0

-- Session 1 holds the floor, and both sessions are present.
abbrev talking : World
talking = run quiet_world (joins 1 ∷ joins 2 ∷ presses 1 true ∷ [])

late_teardown_strips_holder_example :
    (lookup "r1" (Interleavings.overtaken talking 1 2).active ≡ some 2)
    × (OneSpeaker.role (Interleavings.overtaken talking 1 2) 2 ≡ no_role)
    × ((offer_start (Interleavings.overtaken talking 1 2) 2 "sdp").0.sent
        ≡ (2, stop) ∷ (Interleavings.overtaken talking 1 2).sent)
    × ((offer_start (Interleavings.overtaken talking 1 2) 2 "sdp").0.vsi
        ≡ (Interleavings.overtaken talking 1 2).vsi)
    × ((offer_start (Interleavings.overtaken talking 1 2) 2 "sdp").1 ≡ none)
unfolding run press broadcast_speaker start_listeners lookup insert erase
late_teardown_strips_holder_example =
    Interleavings.late_teardown_strips_holder talking 1 2 "sdp" refl refl refl
      (λ e. ground (arith, eq_iff "sdp" ""))
