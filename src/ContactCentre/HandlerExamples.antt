-- ===== src/ContactCentre/HandlerExamples.antt =====
-- Runs of the handlers of transfers on a small contact centre.
use example_applications.Base.{
  ◌==◌, string_eq, nat_eq, ◌≡◌, refl, ◌⊎◌, Bool, true, false, not, ◌&&◌, none, some, List, [], ◌∷◌,
  lookup, insert, erase, if◌then◌else◌,
}
use example_applications.ContactCentre.Registry.{
  LiveCall, removes, in_call, call_answered_by, set_hold, first, lookup_call, modify,
}
use example_applications.ContactCentre.Transfers
use example_applications.ContactCentre.Intercoms
use example_applications.ContactCentre.Agents.{get_agent, webrtc_leg}
use example_applications.ContactCentre.Registry.Legs.{legs_of}
use example_applications.ContactCentre.Transfers.{
  Transfer, TransferState, consulting, completed, create, claim_answer, transition, complete,
  new_transfer_registry, is_pending, target_agent,
}
use example_applications.ContactCentre.Transfers.Pending.{has}
use example_applications.ContactCentre.Intercoms.{new_intercom_registry}
use example_applications.ContactCentre.Handlers.{Env, hold_caller, done, refused, World}
use example_applications.ContactCentre.Handlers.Flow.{
  bring_up_consult, answer_transfer, answer_claimed,
}
use example_applications.ContactCentre.Handlers.Start.{
  Ask, Event, agent_asks, agent_accepts, completes, calls_change, run,
}
use example_applications.ContactCentre.Handlers.Ends.{complete_attended}
use example_applications.ContactCentre.Handlers.Runs.{run_leaves_pending}
use example_applications.ContactCentre.Handlers.ConsultRooms.{
  hung_up, deletes, bring_up_consult_hangs_up, complete_attended_leaves_transfer,
}

-- A media server that does everything, except that the leg of bob does not join a room.
abbrev media : Bool → Env
media joins = record {
  create_room = λ room. true;
  add_leg = λ room leg. if leg == "bob-leg" && not joins then refused else done;
  remove_leg = λ room leg. done;
  play = λ room. some "music";
  supervisor_of = λ who. none;
  online = λ who. true;
}

abbrev with_ann : LiveCall
with_ann = record {
  view = record {
    leg_id = "c1";
    from = "100";
    to = "200";
    state = in_call;
    position = 0;
    started_at = 5;
    room_id = "room-c1";
    answered_by_agent_id = "ann";
    answered_by_name = "Ann";
    answered_agent_leg = "ann-leg";
    answered_at = some 7;
    on_hold = false;
    hold_playback_id = "";
    transferred_from = "";
  };
  answer = true;
  transfer_signal = none;
}

abbrev centre : List LiveCall → World
centre calls = record {
  reg = record { calls = calls; subs = []; next_sub = 0 };
  transfers = record { by_id = []; by_call = [] };
  agents = record {
    by =
        ("ann", record { id = "ann"; name = "Ann"; logged_in_at = 1; webrtc_leg_id = "ann-leg" })
        ∷ ("bob", record { id = "bob"; name = "Bob"; logged_in_at = 1; webrtc_leg_id = "bob-leg" })
        ∷ [];
    pending_remove = [];
    remove_after = 60;
    notified = 0;
  };
  intercoms = record { by_id = []; by_agent = [] };
  sessions = [];
  active_calls = λ session. none;
}

abbrev to_bob : Ask
to_bob = record {
  from_id = "ann";
  from_name = "Ann";
  from_leg = "";
  kind = "agent";
  target = "bob";
  attended = true;
}

abbrev consulted : Transfer
consulted = record {
  id = "t1";
  call_leg_id = "c1";
  room_id = "room-c1";
  consult_room_id = "consult-t1";
  from_agent_id = "ann";
  from_name = "Ann";
  from_leg_id = "ann-leg";
  target_kind = "agent";
  target = "bob";
  target_name = "Bob";
  target_leg_id = "bob-leg";
  attended = true;
  state = consulting;
  started_at = 9;
}

-- The call ends between the consultation and its completion.
abbrev too_late : List (Env × Event)
too_late =
    (media true, agent_asks to_bob (some "t1") 9)
    ∷ (media true, agent_accepts "bob" "Bob" "t1")
    ∷ (media true, calls_change (removes "c1"))
    ∷ (media false, completes "ann" "t1")
    ∷ []

run_leaves_pending_example :
    (is_pending completed ≡ true)
    ⊎ (has (legs_of (run (centre (with_ann ∷ [])) too_late).reg) "c1" ≡ false)
unfolding run new_transfer_registry lookup insert erase call_answered_by Transfers.by_call
    Transfers.get get_agent webrtc_leg create hold_caller set_hold claim_answer transition first
    modify answer_transfer answer_claimed lookup_call Intercoms.by_agent complete_attended complete
run_leaves_pending_example =
    run_leaves_pending (centre (with_ann ∷ [])) too_late refl (refl, (tt, (tt, (tt, tt)))) "t1"
      (record consulted { state = completed }) refl

bring_up_consult_hangs_up_example :
    hung_up (media false) "consult-t1" [] (bring_up_consult (media false) consulted).0
    ≡ "ann-leg" ∷ []
bring_up_consult_hangs_up_example = bring_up_consult_hangs_up (media false) consulted

-- The call of the consulted transfer is gone.
abbrev without_call : World
without_call = record (centre []) {
  transfers = record { by_id = ("t1", consulted) ∷ []; by_call = ("c1", "t1") ∷ [] };
}

complete_attended_leaves_transfer_example :
    (Transfers.get (complete_attended (media true) without_call "t1").0.transfers "t1"
      ≡ some (record consulted { state = completed }))
    × (deletes (complete_attended (media true) without_call "t1").1 ≡ false)
unfolding lookup lookup_call first
complete_attended_leaves_transfer_example =
    complete_attended_leaves_transfer (media true) without_call "t1" consulted refl refl refl
