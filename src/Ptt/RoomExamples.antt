-- ===== src/Ptt/RoomExamples.antt =====
-- The theorems of the rooms at concrete events.
use example_applications.Base.{
  String, string_eq, ◌==◌, ◌≡◌, ◌≢◌, ◌⊎◌, refl, true, false, some, List, [], ◌∷◌, arith, eq_iff,
  map, lookup, insert, erase,
}
use example_applications.Ptt.Rooms.{
  Texts, Room, RoomView, Request, Event, creates, joins, public, new_world, run, get, can_access,
  visible_to,
}
use example_applications.Ptt.Rooms.Access.{Any, Admits, private_entry_earned}
use example_applications.Ptt.Rooms.Lobby.{enterable, visible_to-can_access}

abbrev ascii : Texts
ascii = record { lower = λ s. s; trim_space = λ s. s; equal_fold = λ s t. s == t }

abbrev secret : Request
secret = record {
  name = "Secret";
  owner = "ann";
  visibility = "private";
  roger = "boop";
  radio = false;
}

-- Ann founds a private room, and Bob joins it by its code.
abbrev founded : List Event
founded = creates secret "r1" "c0de" "today" true ∷ joins "c0de" "bob" (some "r1") true ∷ []

abbrev secret_room : Room
secret_room = record {
  id = "r1";
  name = "Secret";
  owner = "ann";
  visibility = "private";
  invite_code = "c0de";
  roger = "boop";
  created_at = "today";
  radio = false;
  radio_low = 0;
  radio_high = 0;
}

secret_stored : get (run ascii new_world founded) "r1" ≡ some secret_room
unfolding run new_world get insert erase lookup
secret_stored = refl

bob_enters : can_access ascii (run ascii new_world founded) secret_room "bob" ≡ true
unfolding run new_world can_access insert erase lookup
bob_enters = refl

is_shut : secret_room.visibility ≢ public
is_shut = λ e. ground (arith, eq_iff "private" public)

private_entry_earned_example :
    (ascii.equal_fold "ann" "bob" ≡ true) ⊎ Any (Admits ascii "r1" "bob") founded
private_entry_earned_example =
    private_entry_earned ascii founded "r1" "bob" secret_room secret_stored is_shut bob_enters

visible_to-can_access_example :
    map
      (λ (v : RoomView). v.id)
      (visible_to ascii (run ascii new_world founded) "eve" (λ (id : String). 0))
    ≡ enterable ascii (run ascii new_world founded) "eve" (run ascii new_world founded).rooms
visible_to-can_access_example = visible_to-can_access ascii founded "eve" (λ id. 0)
