-- ===== src/Pbx/Bridges.antt =====
-- cmd/pbx/dialplan.go: the calls between two legs, and the handlers of the legs' events. A bridge is a
-- pointer in Go, found under both of its legs; here it is a number, and the bridges stand in a store,
-- as do the forks. The answers of the media server are arguments. The softphones' own state, the
-- console's test calls and logging are left out.

pub mod Teardown
use example_applications.Base.{
  ℕ, ◌/◌, String, concat, ◌==◌, string_eq, nat_eq, Bool, true, false, not, ◌&&◌, Option, none, some,
  List, [], ◌∷◌, ◌++◌, Table, lookup, insert, erase, length, if◌then◌else◌,
}
use example_applications.Base.Int.{ℤ, pos, ltb_ℤ}
use example_applications.Pbx.Calls.{
  Bridge, peer_of, set_moh, take_moh, take_ringback, mark_answered, mark_connected, Cand, Group,
  CallMeta, Effect, create_room, delete_room, play_ringback, ring_leg, stop_playback, hold_music,
  create_leg, answer_leg, add_to_room, hang_up, detach_or_hang_up, notify_caller, add_fork,
  drop_fork, drop_fork_leg, add_bridge, resume_plan, delete_call, delete_exec,
}
use example_applications.Pbx.Forks
use example_applications.Pbx.Dialplan.Exec.{safe_hangup_reason}

-- The registries of bridges and of forks, by leg, with what their pointers lead to.
pub record Switch : Type 0 where
  pub bridges : ℕ → Bridge
  pub by_leg : Table ℕ
  pub groups : ℕ → Group
  pub fork_by_leg : Table ℕ

abbrev pub put {ℓ} : {A : Type ℓ} → (ℕ → A) → ℕ → A → ℕ → A
put f k x j = if k == j then x else f j

-- bridgeRegistry
unfoldable pub add : Switch → ℕ → Bridge → Switch
add s k b = record s {
  bridges = put s.bridges k b;
  by_leg = insert b.b_leg k (insert b.a_leg k s.by_leg);
}

unfoldable pub get : Switch → String → Option ℕ
get s leg = lookup leg s.by_leg

unfoldable pub remove : Switch → Bridge → Switch
remove s b = record s { by_leg = erase b.b_leg (erase b.a_leg s.by_leg) }

unfoldable pub count : Switch → ℕ
count s = length s.by_leg / 2

abbrev change : Switch → ℕ → Bridge → Switch
change s k b = record s { bridges = put s.bridges k b }

-- startBridge, without the caller id and the credentials of the outbound leg: `room` is the answer to CreateRoom, a conflict counting as success, `ringback` the
-- playback that LegPlayStart made, empty if it failed, `leg` the answer to CreateLeg (`none` is an
-- error), and `k` the number of the new bridge.
unfoldable pub start_bridge :
    Switch
    → String
    → String
    → Bool
    → CallMeta
    → Bool
    → String
    → Option String
    → ℕ
    → ℕ
    → Switch × List Effect
unfolding add
start_bridge s a_leg to_uri answered meta room ringback leg now k =
    let room_id = concat "call-" a_leg in
    let ring_time : ℤ = if ltb_ℤ (pos 0) meta.ring_time then meta.ring_time else pos 60 in
    let pb = if answered then ringback else "" in
    let asked : List Effect =
      create_room room_id
      ∷ (if answered then play_ringback a_leg else ring_leg a_leg)
      ∷ create_leg to_uri ring_time
      ∷ [] in
    let stopped : List Effect = if pb == "" then [] else stop_playback a_leg pb ∷ [] in
    let give_up : Effect = hang_up a_leg "unavailable" in
    let made = λ (l : String). add s k (record {
      room_id = room_id;
      tenant_id = meta.tenant_id;
      a_leg = a_leg;
      b_leg = l;
      from = meta.from;
      to = meta.to;
      kind = meta.kind;
      via = meta.via;
      started_at = now;
      caller_filters = meta.caller_filters;
      callee_filters = [];
      resumes = meta.resumes;
      caller_answered = answered;
      ringback_pb = pb;
      connected = false;
      connected_at = 0;
      moh = [];
    }) in
    if room
    then elim leg [
      | none ↦ (s, asked ++ (stopped ++ delete_room room_id ∷ give_up ∷ []))
      | some l ↦
          if l == "" then (s, asked ++ give_up ∷ []) else (made l, asked ++ delete_call a_leg ∷ [])
    ]
    else (s, create_room room_id ∷ give_up ∷ [])

-- connectCaller, for the bridge number `k`, with the answers to AnswerLeg and AddLegToRoom.
unfoldable pub connect_caller : Switch → ℕ → Bool → Bool → ℕ → Switch × List Effect
unfolding take_ringback mark_answered mark_connected
connect_caller s k answered added now =
    let (b, pb) = take_ringback (s.bridges k) in
    let stopped : List Effect = if pb == "" then [] else stop_playback b.a_leg pb ∷ [] in
    let asked : List Effect =
      if b.caller_answered then [] else answer_leg b.a_leg b.caller_filters ∷ [] in
    let up = if b.caller_answered then b else mark_answered b in
    if not b.caller_answered && not answered
    then (change s k b, stopped ++ (asked ++ hang_up b.b_leg "" ∷ []))
    else if added
    then (
      change s k (mark_connected up now),
      stopped
          ++ (asked ++ add_to_room b.room_id b.a_leg ∷ notify_caller b.room_id b.a_leg b.to ∷ []),
    )
    else (
      change s k up,
      stopped
          ++ (asked
              ++ add_to_room b.room_id b.a_leg
                ∷ detach_or_hang_up b.room_id b.a_leg ""
                ∷ hang_up b.b_leg ""
                ∷ []),
    )

-- The part of onLegDisconnected for a leg of the bridge number `k`.
unfoldable pub bridge_ended : Switch → ℕ → String → String → Switch × List Effect
unfolding remove take_ringback peer_of safe_hangup_reason
bridge_ended s k leg reason =
    let (b, pb) = take_ringback (s.bridges k) in
    let s' = change (remove s b) k b in
    let stopped : List Effect = if pb == "" then [] else stop_playback b.a_leg pb ∷ [] in
    if leg == b.b_leg && (not b.connected && b.resumes)
    then (s', stopped ++ delete_room b.room_id ∷ resume_plan ∷ [])
    else (
      s',
      stopped
          ++ detach_or_hang_up b.room_id (peer_of b leg) (safe_hangup_reason reason)
            ∷ delete_room b.room_id
            ∷ delete_call leg
            ∷ delete_exec leg
            ∷ [],
    )

-- What the effects of a fork's handler do to the registries; `k` is the fork, `n` a new bridge.
unfoldable pub perform : Switch → ℕ → ℕ → List Effect → Switch
unfolding Forks.add Forks.remove Forks.remove_leg add
perform s k n [] = s
perform s k n (add_fork g ∷ es) =
    perform (record s { groups = put s.groups k g; fork_by_leg = Forks.add s.fork_by_leg k g }) k n
      es
perform s k n (drop_fork ∷ es) =
    perform (record s { fork_by_leg = Forks.remove s.fork_by_leg k }) k n es
perform s k n (drop_fork_leg leg ∷ es) =
    perform (record s { fork_by_leg = Forks.remove_leg s.fork_by_leg leg }) k n es
perform s k n (add_bridge b ∷ es) = perform (add s n b) k n es
perform s k n (_ ∷ es) = perform s k n es

unfoldable pub after_fork : Switch → ℕ → ℕ → Group × List Effect → Switch × List Effect
unfolding perform
after_fork s k n (g, es) = (perform (record s { groups = put s.groups k g }) k n es, es)

-- onLegDisconnected
unfoldable pub on_leg_disconnected : Switch → String → String → ℕ → Switch × List Effect
unfolding after_fork Forks.get Forks.on_fork_disconnected get bridge_ended
on_leg_disconnected s leg reason n = elim (Forks.get s.fork_by_leg leg) [
  | some k ↦ after_fork s k n (Forks.on_fork_disconnected (s.groups k) leg reason)
  | none ↦ elim (get s leg) [
    | none ↦ (s, delete_call leg ∷ delete_exec leg ∷ [])
    | some k ↦ bridge_ended s k leg reason
  ]
]

-- onLegConnected, for a leg that neither the dial plan nor the voice menu waits for. `n` numbers the
-- bridge of a fork that is answered.
unfoldable pub on_leg_connected : Switch → String → Bool → Bool → ℕ → ℕ → Switch × List Effect
unfolding after_fork Forks.get Forks.on_fork_connected get connect_caller
on_leg_connected s leg answered added now n =
    let bridged : Switch × List Effect = elim (get s leg) [
      | none ↦ (s, [])
      | some k ↦
          if leg == (s.bridges k).b_leg then connect_caller s k answered added now else (s, [])
    ] in
    elim (Forks.get s.fork_by_leg leg) [
      | none ↦ bridged
      | some k ↦
          if leg == (s.groups k).a_leg
          then bridged
          else after_fork s k n (Forks.on_fork_connected (s.groups k) leg answered now)
    ]

-- onLegHold, with the music that the tenant has, and the playback that LegPlayStart made (`none` is
-- an error).
unfoldable pub on_leg_hold : Switch → String → String → Option String → Switch × List Effect
unfolding get peer_of set_moh
on_leg_hold s leg url playback = elim (get s leg) [
  | none ↦ (s, [])
  | some k ↦
      let b = s.bridges k in
      let asked : List Effect = hold_music (peer_of b leg) url ∷ [] in
      if url == ""
      then (s, [])
      else elim playback [ none ↦ (s, asked) | some pb ↦ (change s k (set_moh b leg pb), asked) ]
]

-- onLegUnhold
unfoldable pub on_leg_unhold : Switch → String → Switch × List Effect
unfolding get peer_of take_moh
on_leg_unhold s leg = elim (get s leg) [
  | none ↦ (s, [])
  | some k ↦
      let (b, pb) = take_moh (s.bridges k) leg in
      (change s k b, if pb == "" then [] else stop_playback (peer_of b leg) pb ∷ [])
]
