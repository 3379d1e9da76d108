-- ===== src/ContactCentre/Examples.antt =====
-- The theorems of the contact centre at concrete schedules of calls.
use example_applications.Base.{
  ℕ, String, ◌≡◌, refl, Bool, true, false, none, some, List, [], ◌∷◌, lookup, insert, erase, ◌==◌,
  string_eq,
}
use example_applications.ContactCentre.Transfers
use example_applications.ContactCentre.Transfers.Races
use example_applications.ContactCentre.Transfers.Consistency.{
  IsConsistent, run_transfers-IsConsistent, one_transfer_per_call,
}
use example_applications.ContactCentre.Intercoms
use example_applications.ContactCentre.Intercoms.Consistency.{
  IsConsistent as IntercomsAgree, run_intercoms-IsConsistent,
}
use example_applications.ContactCentre.Registry
use example_applications.ContactCentre.Registry.Claims
use example_applications.ContactCentre.Registry.Positions
use example_applications.ContactCentre.Agents
use example_applications.ContactCentre.Agents.Roster.{
  Announced, step-Announced, reconnected_agent_removed,
}
use example_applications.ContactCentre.CallLog
use example_applications.ContactCentre.CallLog.Newest

abbrev hand_over : Transfers.Request
hand_over = record {
  call_leg_id = "call-1";
  room_id = "room-1";
  from_id = "ann";
  from_name = "Ann";
  kind = "agent";
  target = "bob";
  target_name = "Bob";
  from_leg_id = "leg-ann";
  attended = true;
}

abbrev offered : List Transfers.Call
offered = Transfers.creates hand_over (some "t1") 5 ∷ []

abbrev consulted : List Transfers.Call
consulted = Transfers.creates hand_over (some "t1") 5 ∷ Transfers.answers "t1" "leg-bob" ∷ []

abbrev hand_over_transfer : Transfers.Transfer
hand_over_transfer = Transfers.new_transfer hand_over "t1" 5

-- The transfer is offered and then called off, before the target answers.
abbrev called_off : Transfers.TransferRegistry
called_off =
    Transfers.run Transfers.new_transfer_registry
      (Transfers.creates hand_over (some "t1") 5 ∷ Transfers.cancels "t1" ∷ [])

abbrev too_late : List Transfers.Call
too_late = Transfers.answers "t1" "leg-bob" ∷ Transfers.fails "t1" ∷ []

winner_takes_all_example :
    Transfers.get (Transfers.run called_off too_late) "t1"
    ≡ some (record hand_over_transfer { state = Transfers.cancelled })
unfolding Transfers.run Transfers.step Transfers.new_transfer_registry lookup insert erase
winner_takes_all_example =
    (Races.winner_takes_all called_off too_late "t1" "leg-bob"
      (record hand_over_transfer { state = Transfers.cancelled }) (tt, tt, (tt, tt, tt)) refl
      refl).0

step-Edge_example :
    (u : Transfers.Transfer) × (lookup "t1"
        (Transfers.step
          (Transfers.run Transfers.new_transfer_registry offered)
          (Transfers.answers "t1" "leg-bob")).by_id
      ≡ some u)
    × Races.Edge hand_over_transfer u
unfolding Transfers.run Transfers.step Transfers.new_transfer_registry lookup insert erase
step-Edge_example =
    Races.step-Edge (Transfers.run Transfers.new_transfer_registry offered)
      (Transfers.answers "t1" "leg-bob") "t1" hand_over_transfer tt tt refl

run_transfers-IsConsistent_example :
    IsConsistent (Transfers.run Transfers.new_transfer_registry consulted)
unfolding Transfers.new_transfer_registry lookup
run_transfers-IsConsistent_example = run_transfers-IsConsistent consulted (refl, (tt, tt))

one_transfer_per_call_example : ◌≡◌ {A = String} "t1" "t1"
unfolding Transfers.run Transfers.step Transfers.new_transfer_registry lookup insert erase
one_transfer_per_call_example =
    one_transfer_per_call offered "t1" "t1" hand_over_transfer hand_over_transfer (refl, tt) refl
      refl refl

abbrev ann_calls : Intercoms.Request
ann_calls = record {
  agent = some (record { id = "ann"; name = "Ann" });
  kind = "supervisor";
  target = "sue";
  target_name = "Sue";
  agent_leg = "leg-ann";
}

abbrev intercom_calls : List Intercoms.Call
intercom_calls = Intercoms.creates ann_calls (some "i1") 3 ∷ Intercoms.answers "i1" "leg-sue" 4 ∷ []

abbrev ann_and_sue : Intercoms.Intercom
ann_and_sue =
    record (Intercoms.new_intercom ann_calls (record { id = "ann"; name = "Ann" }) "i1" 3) {
      state = Intercoms.active;
      callee_leg = "leg-sue";
      answered_at = some 4;
    }

run_intercoms-IsConsistent_example :
    IntercomsAgree (Intercoms.run Intercoms.new_intercom_registry intercom_calls)
unfolding Intercoms.new_intercom_registry lookup
run_intercoms-IsConsistent_example = run_intercoms-IsConsistent intercom_calls (refl, (tt, tt))

-- Two callers, of whom the second is queued first.
abbrev arrivals : List Registry.Call
arrivals =
    Registry.subscribes
    ∷ Registry.adds "c1" "alice" "line" 1
    ∷ Registry.adds "c2" "carol" "line" 2
    ∷ Registry.queues "c2" "room-c2"
    ∷ Registry.queues "c1" "room-c1"
    ∷ []

abbrev waiting_room : Registry.Registry
waiting_room = Registry.run Registry.new_registry arrivals

abbrev agent_ann : Registry.Claimant
agent_ann = record { agent_id = "ann"; agent_name = "Ann"; agent_leg = "leg-ann" }

abbrev agent_bob : Registry.Claimant
agent_bob = record { agent_id = "bob"; agent_name = "Bob"; agent_leg = "leg-bob" }

abbrev meanwhile : List Registry.Call
meanwhile =
    Registry.holds "c1" true "music" ∷ Registry.claims "c2" agent_bob 8 ∷ Registry.receives 0 ∷ []

one_claim_wins_example :
    let s = Registry.run (Registry.claim waiting_room "c1" agent_ann 7).0 meanwhile in
    (Claims.standing "c1" s.calls ≡ some (Registry.in_call, "ann"))
    × (Registry.claim s "c1" agent_bob 9 ≡ (s, false))
unfolding Registry.claim Registry.run Registry.step Registry.new_registry
one_claim_wins_example =
    Claims.one_claim_wins waiting_room "c1" agent_ann agent_bob 7 9 meanwhile refl
      (tt, (tt, (tt, tt)))

abbrev c1_is : Registry.LiveCall → Bool
c1_is x = x.leg_id == "c1"

run-Ranked_example : Positions.Ranked 0 waiting_room.calls
run-Ranked_example = Positions.run-Ranked arrivals

queue_position-rank_example : Registry.queue_position waiting_room "c2" ≡ 2
unfolding Registry.run Registry.step Registry.new_registry
queue_position-rank_example = Positions.queue_position-rank arrivals "c2"

-- A store of two entries that has seen three.
list-append_all_example :
    CallLog.list {E = ℕ} (CallLog.append_all (CallLog.new_mem_store 0 2) (7 ∷ 8 ∷ 9 ∷ [])) 0
    ≡ some (9 ∷ 8 ∷ [])
list-append_all_example = Newest.list-append_all 0 2 0 (7 ∷ 8 ∷ 9 ∷ [])

abbrev ann_logged_in : Agents.AgentRegistry
ann_logged_in =
    Agents.run Agents.new_agent_registry
      (Agents.logs_in "Ann" (some "a1") 5 ∷ Agents.disconnects "a1" 9 ∷ [])

step-Announced_example :
    Announced ann_logged_in (Agents.step ann_logged_in (Agents.sets_leg "a1" "leg-1"))
step-Announced_example = step-Announced ann_logged_in (Agents.sets_leg "a1" "leg-1")

reconnected_agent_removed_example :
    (Agents.get_agent (Agents.cancel_remove ann_logged_in "a1") "a1"
      ≡ some (record { id = "a1"; name = "Ann"; logged_in_at = 5; webrtc_leg_id = "" }))
    × (Agents.get_agent (Agents.expire (Agents.cancel_remove ann_logged_in "a1") "a1") "a1" ≡ none)
unfolding Agents.new_agent_registry Agents.run Agents.step Agents.get_agent Agents.login
    Agents.schedule_remove lookup insert erase
reconnected_agent_removed_example =
    reconnected_agent_removed ann_logged_in "a1"
      (record { id = "a1"; name = "Ann"; logged_in_at = 5; webrtc_leg_id = "" }) refl
