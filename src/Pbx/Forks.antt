-- ===== src/Pbx/Forks.antt =====
-- cmd/pbx/dialplan_fork.go: a fork rings several devices at once and connects the caller to the first
-- that answers. A handler holds the group's mutex for its decision; what it does afterwards is the
-- list of its effects, and the answers of the media server are arguments. Go's maps have no order,
-- and the lists go by the order of the table. The deadline of the ring timer and logging are left out.
pub mod Resolution
use example_applications.Base.{
  ℕ, String, concat, ◌==◌, string_eq, nat_eq, Bool, true, false, not, ◌&&◌, Option, none, some,
  List, [], ◌∷◌, ◌++◌, Table, lookup, insert, erase, if◌then◌else◌,
}
use example_applications.Base.Int.{ℤ, pos, ltb_ℤ}
use example_applications.Pbx.Calls.{
  Bridge, Cand, Group, CallMeta, Effect, create_room, delete_room, play_ringback, ring_leg,
  stop_playback, create_leg, answer_leg, add_to_room, hang_up, detach_or_hang_up, set_ring,
  ring_device, stop_ring, device_in_call, notify_caller, add_fork, drop_fork, drop_fork_leg,
  add_bridge, resume_plan, delete_call,
}
use example_applications.Pbx.Dialplan.Exec.{safe_hangup_reason}

abbrev pub is_empty {ℓ} : {A : Type ℓ} → List A → Bool
is_empty [] = true
is_empty (_ ∷ _) = false

-- Stops the ringback tone that the caller hears, if there is one.
abbrev pub stop_ringback : Group → List Effect
stop_ringback g = if g.ringback_pb == "" then [] else stop_playback g.a_leg g.ringback_pb ∷ []

-- The end of a ringing candidate: a softphone's ring is stopped, and a SIP leg is hung up.
unfoldable pub drop_cand : String → String → Cand → Effect
drop_cand why leg c = elim c.sess [ some s ↦ stop_ring s why | none ↦ hang_up leg "" ]

unfoldable pub drop_cands : String → Table Cand → List Effect
unfolding drop_cand
drop_cands why [] = []
drop_cands why ((leg, c) ∷ cs) = drop_cand why leg c ∷ drop_cands why cs

-- The bridge of a fork that was answered.
unfoldable pub bridge_of : Group → String → Cand → ℕ → Bridge
bridge_of g winner c now = record {
  room_id = g.room_id;
  tenant_id = g.tenant_id;
  a_leg = g.a_leg;
  b_leg = winner;
  from = g.from;
  to = c.number;
  kind = g.kind;
  via = g.via;
  started_at = g.started_at;
  caller_filters = [];
  callee_filters = [];
  resumes = false;
  caller_answered = true;
  ringback_pb = "";
  connected = true;
  connected_at = now;
  moh = [];
}

-- The work of onForkConnected for the winner; `answered` is the answer to AnswerLeg.
unfoldable pub connect_winner : Group → String → Cand → Bool → ℕ → List Effect
unfolding drop_cand drop_cands bridge_of
connect_winner g winner c answered now =
    let losers = drop_cands "taken" (erase winner g.candidates) in
    let asked : List Effect =
      if g.caller_answered then [] else answer_leg g.a_leg g.caller_filters ∷ [] in
    let failed : List Effect =
      drop_fork
      ∷ drop_cand "failed" winner c
      ∷ (losers ++ delete_room g.room_id ∷ detach_or_hang_up g.room_id g.a_leg "" ∷ []) in
    let told : List Effect = elim c.sess [
      | some s ↦ device_in_call s g.room_id g.from ∷ []
      | none ↦ []
    ] in
    let bridged : List Effect =
      add_to_room g.room_id g.a_leg
      ∷ add_to_room g.room_id winner
      ∷ (told
          ++ notify_caller g.room_id g.a_leg c.number
            ∷ (losers ++ drop_fork ∷ add_bridge (bridge_of g winner c now) ∷ [])) in
    stop_ringback g
    ++ (asked ++ (if g.caller_answered then bridged else if answered then bridged else failed))

-- onForkConnected
unfoldable pub on_fork_connected : Group → String → Bool → ℕ → Group × List Effect
unfolding connect_winner drop_cand
on_fork_connected g winner answered now = elim (lookup winner g.candidates) [
  | none ↦ (g, [])
  | some c ↦
      if g.won
      then (g, drop_cand "taken" winner c ∷ [])
      else (record g { won = true; ring_timer = false }, connect_winner g winner c answered now)
]

-- The part of forkCandidateGone after the last candidate has left: nobody answered.
unfoldable pub no_answer : Group → String → List Effect
unfolding safe_hangup_reason
no_answer g reason =
    stop_ringback g
    ++ (drop_fork
        ∷ delete_room g.room_id
        ∷ (if g.resumes
            then resume_plan
            else detach_or_hang_up g.room_id g.a_leg (safe_hangup_reason reason))
        ∷ [])

-- forkCandidateGone
unfoldable pub fork_candidate_gone : Group → String → String → Group × List Effect
unfolding no_answer
fork_candidate_gone g leg reason = elim (lookup leg g.candidates) [
  | none ↦ (g, [])
  | some c ↦
      let rest = erase leg g.candidates in
      let g' : Group = record g {
        candidates = rest;
        ring_timer = if is_empty rest then false else g.ring_timer;
      } in
      let stopped : List Effect = elim c.sess [ some s ↦ stop_ring s reason ∷ [] | none ↦ [] ] in
      let ended : List Effect = if is_empty rest then no_answer g reason else [] in
      (g', drop_fork_leg leg ∷ (if g.won then [] else stopped ++ ended))
]

unfoldable pub candidates_gone : Group → List String → String → Group × List Effect
unfolding fork_candidate_gone
candidates_gone g [] reason = (g, [])
candidates_gone g (leg ∷ legs) reason =
    let (g', es) = fork_candidate_gone g leg reason in
    let (g'', es') = candidates_gone g' legs reason in (g'', es ++ es')

unfoldable pub web_legs : Table Cand → List String
web_legs [] = []
web_legs ((leg, c) ∷ cs) =
    let rest = web_legs cs in elim c.sess [ none ↦ rest | some s ↦ leg ∷ rest ]

-- onForkRingTimeout
unfoldable pub on_fork_ring_timeout : Group → Group × List Effect
unfolding web_legs candidates_gone
on_fork_ring_timeout g =
    if g.won then (g, []) else candidates_gone g (web_legs g.candidates) "timeout"

-- forkCallerGaveUp
unfoldable pub fork_caller_gave_up : Group → Group × List Effect
unfolding drop_cands
fork_caller_gave_up g = (
  record g { ring_timer = false },
  drop_fork
      ∷ (stop_ringback g ++ (drop_cands "cancelled" g.candidates ++ delete_room g.room_id ∷ [])),
)

-- onForkDisconnected
unfoldable pub on_fork_disconnected : Group → String → String → Group × List Effect
unfolding fork_caller_gave_up fork_candidate_gone
on_fork_disconnected g leg reason =
    if leg == g.a_leg then fork_caller_gave_up g else fork_candidate_gone g leg reason

-- One target of startFork, with what came of it: the answer to CreateLeg (`none` is an error), or the
-- softphone's session, its leg and whether it is in do-not-disturb. Codecs and filters are left out.
pub data Ring : Type 0 where
  sip : (number aor : String) (leg : Option String) → Ring
  device : (number : String) (sess : ℕ) (leg : String) (dnd : Bool) → Ring

-- The loop over the targets: the candidates, the legs in do-not-disturb, and the effects.
pub record Ringing : Type 0 where
  pub cands : Table Cand
  pub dnd_legs : List String
  pub has_web_rtc : Bool
  pub effects : List Effect

unfoldable pub ring_target : ℤ → String → Ringing → Ring → Ringing
ring_target ring_time from r (sip number aor leg) = elim leg [
  | none ↦ record r { effects = r.effects ++ create_leg aor ring_time ∷ [] }
  | some l ↦ record r {
    effects = r.effects ++ create_leg aor ring_time ∷ [];
    cands = if l == "" then r.cands else insert l (record { number = number; sess = none }) r.cands;
  }
]
ring_target ring_time from r (device number s leg dnd) =
    if leg == ""
    then r
    else if dnd
    then record r {
      cands = insert leg (record { number = number; sess = some s }) r.cands;
      dnd_legs = r.dnd_legs ++ leg ∷ [];
      effects = r.effects ++ set_ring s from ∷ [];
    }
    else record r {
      cands = insert leg (record { number = number; sess = some s }) r.cands;
      has_web_rtc = true;
      effects = r.effects ++ set_ring s from ∷ ring_device s from ∷ [];
    }

unfoldable pub ring_targets : ℤ → String → Ringing → List Ring → Ringing
unfolding ring_target
ring_targets ring_time from r [] = r
ring_targets ring_time from r (t ∷ ts) =
    ring_targets ring_time from (ring_target ring_time from r t) ts

unfoldable pub group_of : String → Bool → CallMeta → String → Ringing → ℕ → Group
group_of a_leg answered meta ringback r now = record {
  room_id = concat "call-" a_leg;
  tenant_id = meta.tenant_id;
  a_leg = a_leg;
  caller_answered = answered;
  from = meta.from;
  to = meta.to;
  via = meta.via;
  kind = meta.kind;
  ringback_pb = ringback;
  started_at = now;
  caller_filters = meta.caller_filters;
  resumes = meta.resumes;
  candidates = r.cands;
  won = false;
  ring_timer = r.has_web_rtc;
}

-- The part of startFork after the loop.
unfoldable pub begin_fork : Group → List String → Group × List Effect
unfolding candidates_gone
begin_fork g dnd =
    if is_empty g.candidates
    then (
      g,
      stop_ringback g
          ++ delete_room g.room_id ∷ detach_or_hang_up g.room_id g.a_leg "unavailable" ∷ [],
    )
    else (let (g', es) = candidates_gone g dnd "declined" in
        (g', add_fork g ∷ delete_call g.a_leg ∷ es))

-- startFork: `room` is the answer to CreateRoom, a conflict counting as success, and `ringback` the
-- playback that LegPlayStart made, empty if it failed. `none` is a fork that was never set up.
unfoldable pub start_fork :
    String → List Ring → Bool → CallMeta → Bool → String → ℕ → Option Group × List Effect
unfolding ring_targets group_of begin_fork
start_fork a_leg targets answered meta room ringback now =
    let ring_time : ℤ = if ltb_ℤ (pos 0) meta.ring_time then meta.ring_time else pos 60 in
    let tone : List Effect = (if answered then play_ringback a_leg else ring_leg a_leg) ∷ [] in
    let none_yet : Ringing = record {
      cands = [];
      dnd_legs = [];
      has_web_rtc = false;
      effects = [];
    } in
    let r = ring_targets ring_time meta.from none_yet targets in
    let (g, es) =
      begin_fork (group_of a_leg answered meta (if answered then ringback else "") r now)
        r.dnd_legs in
    if room
    then (some g, create_room (concat "call-" a_leg) ∷ (tone ++ (r.effects ++ es)))
    else (none, create_room (concat "call-" a_leg) ∷ hang_up a_leg "unavailable" ∷ [])

-- forkRegistry: each leg of a fork, to the number of its group. These are the loops of `add` and of
-- `remove`.
unfoldable pub add_legs : Table ℕ → ℕ → Table Cand → Table ℕ
add_legs m k [] = m
add_legs m k ((leg, c) ∷ cs) = add_legs (insert leg k m) k cs

unfoldable pub add : Table ℕ → ℕ → Group → Table ℕ
unfolding add_legs
add m k g = add_legs (insert g.a_leg k m) k g.candidates

unfoldable pub get : Table ℕ → String → Option ℕ
get m leg = lookup leg m

unfoldable pub remove_leg : Table ℕ → String → Table ℕ
remove_leg m leg = erase leg m

unfoldable pub remove : Table ℕ → ℕ → Table ℕ
remove [] k = []
remove ((leg, j) ∷ m) k = let rest = remove m k in if j == k then rest else (leg, j) ∷ rest

-- The handlers of a fork that was set up, in any order: an answer with the result of AnswerLeg, the
-- disconnect of a leg, a softphone that declines, and the ring timer.
pub data Event : Type 0 where
  answers : String → Bool → ℕ → Event
  disconnects declines : String → String → Event
  times_out : Event

unfoldable pub handle : Group → Event → Group × List Effect
unfolding on_fork_connected on_fork_disconnected fork_candidate_gone on_fork_ring_timeout
handle g (answers leg ok now) = on_fork_connected g leg ok now
handle g (disconnects leg reason) = on_fork_disconnected g leg reason
handle g (declines leg reason) = fork_candidate_gone g leg reason
handle g times_out = on_fork_ring_timeout g

unfoldable pub run : Group → List Event → Group × List Effect
unfolding handle
run g [] = (g, [])
run g (e ∷ es) = let (g', out) = handle g e in let (g'', out') = run g' es in (g'', out ++ out')
