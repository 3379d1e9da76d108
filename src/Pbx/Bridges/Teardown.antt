-- ===== src/Pbx/Bridges/Teardown.antt =====
-- How a call between two legs begins and ends, and music on hold.
use example_applications.Base.{
  ℕ, suc, String, ◌==◌, string_eq, nat_eq, ◌≡◌, ◌≢◌, ◌⊎◌, refl, ◌∙◌, Bool, true, false, Option,
  none, some, List, [], ◌∷◌, ◌++◌, arith, lookup, insert, lookup-erase, lookup-insert, Bool-cases,
  inl, inr, eq_iff,
}
use example_applications.Pbx.Calls.{
  Bridge, CallMeta, Effect, peer_of, set_moh, take_moh, stop_playback, hold_music, hang_up,
  detach_or_hang_up, resume_plan,
}
use example_applications.Pbx.Forks
use example_applications.Pbx.Bridges.{
  Switch, put, get, add, start_bridge, on_leg_disconnected, on_leg_hold, on_leg_unhold,
}

-- Disconnects of legs, one after another.
unfoldable pub disconnects : Switch → List (String × String) → Switch × List Effect
unfolding on_leg_disconnected
disconnects s [] = (s, [])
disconnects s ((leg, reason) ∷ more) =
    let (s', es) = on_leg_disconnected s leg reason 0 in
    let (s'', es') = disconnects s' more in (s'', es ++ es')

-- The legs that are taken out of their room and hung up, and the returns of a caller to its plan.
abbrev pub released : List Effect → List String
released [] = []
released (detach_or_hang_up room leg reason ∷ es) = leg ∷ released es
released (_ ∷ es) = released es

abbrev pub resumed : List Effect → ℕ
resumed [] = 0
resumed (resume_plan ∷ es) = suc (resumed es)
resumed (_ ∷ es) = resumed es

-- A leg that is in no call and in no fork.
record IsFree (s : Switch) (leg : String) : Type 0 where
  no_call : lookup leg s.by_leg ≡ none
  no_fork : lookup leg s.fork_by_leg ≡ none

abbrev pub IsEither : String → String → String × String → Type 0
IsEither a b event = (event.0 ≡ a) ⊎ (event.0 ≡ b)

-- The two legs of a bridge, in one order or the other.
abbrev pub ArePeers : Bridge → String → String → Type 0
ArePeers b leg other = ((leg ≡ b.a_leg) × (other ≡ b.b_leg)) ⊎ ((leg ≡ b.b_leg) × (other ≡ b.a_leg))

peer_of-other : (b : Bridge) (leg other : String) → ArePeers b leg other → peer_of b leg ≡ other
unfolding peer_of
peer_of-other b leg other peers = ground (arith, peers, eq_iff leg b.a_leg)

-- The end of a call for the other leg: it is released; or it is a caller that was never connected,
-- which goes on along its plan.
abbrev pub LetsGo : Bridge → String → List Effect → Type 0
LetsGo b other es =
    ((released es ≡ other ∷ []) × (resumed es ≡ 0))
    ⊎ ((other ≡ b.a_leg) × (b.connected ≡ false) × (released es ≡ []) × (resumed es ≡ 1))

hold_plays :
    (s : Switch) (k : ℕ) (leg other url : String) (playback : Option String)
    → lookup leg s.by_leg ≡ some k
    → ArePeers (s.bridges k) leg other
    → url ≢ ""
    → (on_leg_hold s leg url playback).1 ≡ hold_music other url ∷ []
unfolding on_leg_hold get
hold_plays s k leg other url none at peers some_url =
    ground (arith, eq_iff url "", peer_of-other (s.bridges k) leg other peers)
hold_plays s k leg other url (some pb) at peers some_url =
    ground (arith, eq_iff url "", peer_of-other (s.bridges k) leg other peers)

hold_starts :
    (s : Switch) (k : ℕ) (leg url pb : String)
    → lookup leg s.by_leg ≡ some k
    → url ≢ ""
    → (on_leg_hold s leg url (some pb)).0
      ≡ record s { bridges = put s.bridges k (set_moh (s.bridges k) leg pb) }
unfolding on_leg_hold get
hold_starts s k leg url pb at some_url = ground (arith, eq_iff url "")

unhold_stops :
    (s : Switch) (k : ℕ) (leg pb : String)
    → lookup leg s.by_leg ≡ some k
    → lookup leg (s.bridges k).moh ≡ some pb
    → pb ≢ ""
    → on_leg_unhold s leg ≡ (
      record s { bridges = put s.bridges k (take_moh (s.bridges k) leg).0 },
      stop_playback (peer_of (s.bridges k) leg) pb ∷ [],
    )
unfolding on_leg_unhold get take_moh peer_of
unhold_stops s k leg pb at held some_pb = ground (arith, eq_iff pb "")

unhold_silent :
    (s : Switch) (k : ℕ) (leg : String)
    → lookup leg s.by_leg ≡ some k
    → lookup leg (s.bridges k).moh ≡ none
    → (on_leg_unhold s leg).1 ≡ []
unfolding on_leg_unhold get take_moh
unhold_silent s k leg at held = ground (arith, eq_iff (take_moh (s.bridges k) leg).1 "")

put_self {ℓ} : {A : Type ℓ} (f : ℕ → A) (k : ℕ) (x : A) → put f k x k ≡ x
put_self f k x = ground arith

-- Music on hold: a leg that is put on hold plays the music to the other leg of its call, and taken off
-- again stops the playback that it started, on that other leg; taken off once more it stops nothing.
pub hold-unhold :
    (s : Switch) (k : ℕ) (leg other url pb : String)
    → lookup leg s.by_leg ≡ some k
    → ArePeers (s.bridges k) leg other
    → url ≢ ""
    → pb ≢ ""
    → let held = (on_leg_hold s leg url (some pb)).0 in
      ((on_leg_hold s leg url (some pb)).1 ≡ hold_music other url ∷ [])
      × ((on_leg_unhold held leg).1 ≡ stop_playback other pb ∷ [])
      × ((on_leg_unhold (on_leg_unhold held leg).0 leg).1 ≡ [])
unfolding set_moh take_moh
hold-unhold s k leg other url pb at peers some_url some_pb =
    let b = set_moh (s.bridges k) leg pb in
    let held : Switch = record s { bridges = put s.bridges k b } in
    let same = put_self s.bridges k b in
    let plays : lookup leg (held.bridges k).moh ≡ some pb =
      rw same (lookup-insert leg leg pb (s.bridges k).moh ∙ rw ((eq_iff leg leg).1 refl) refl) in
    let off = (take_moh (held.bridges k) leg).0 in
    let silent : lookup leg (put held.bridges k off k).moh ≡ none =
      rw (put_self held.bridges k off)
        (lookup-erase leg leg (held.bridges k).moh ∙ rw ((eq_iff leg leg).1 refl) refl) in
    let peer : peer_of (held.bridges k) leg ≡ other = rw same (peer_of-other b leg other peers) in
    (
      hold_plays s k leg other url (some pb) at peers some_url,
      rw (hold_starts s k leg url pb at some_url, unhold_stops held k leg pb at plays some_pb, peer)
          refl,
      rw (hold_starts s k leg url pb at some_url, unhold_stops held k leg pb at plays some_pb)
          (unhold_silent (record held { bridges = put held.bridges k off }) k leg at silent),
    )

-- The legs that are hung up.
abbrev pub hung_up : List Effect → List String
hung_up [] = []
hung_up (hang_up leg reason ∷ es) = leg ∷ hung_up es
hung_up (_ ∷ es) = hung_up es

-- The call between the two legs is found under both of them, by its number.
abbrev pub AreBridged : Switch → ℕ → String → String → Type 0
AreBridged s k a b =
    (lookup a s.by_leg ≡ some k)
    × (lookup b s.by_leg ≡ some k)
    × ((s.bridges k).a_leg ≡ a)
    × ((s.bridges k).b_leg ≡ b)

-- startBridge leaves no caller hanging: whatever the media server answers, either the registry is
-- unchanged and the caller's leg is hung up, once and no other; or CreateRoom succeeded and CreateLeg
-- gave a leg with an id, the caller and that leg are bridged under the new number, and nobody is hung
-- up.
pub start_bridge_settles :
    (s : Switch) (a to : String) (answered : Bool) (meta : CallMeta) (room : Bool) (pb : String)
    (leg : Option String) (now k : ℕ)
    → let r = start_bridge s a to answered meta room pb leg now k in
      ((r.0 ≡ s) × (hung_up r.1 ≡ a ∷ []))
      ⊎ ((l : String) × (room ≡ true)
          × (leg ≡ some l)
          × (l ≢ "")
          × AreBridged r.0 k a l
          × (hung_up r.1 ≡ []))
unfolding start_bridge add
start_bridge_settles s a to answered meta false pb leg now k = inl (refl, refl)
start_bridge_settles s a to answered meta true pb none now k = inl (refl, ground arith)
start_bridge_settles s a to answered meta true pb (some l) now k = elim (Bool-cases (l == "")) [
  | inl e ↦ inl (rw e refl, rw e (ground arith))
  | inr e ↦ inr (
    l,
    refl,
    refl,
    ground (arith, eq_iff l ""),
    (
      ground (
        arith,
        lookup-insert l a k (insert a k s.by_leg),
        lookup-insert a a k s.by_leg,
        eq_iff a a,
      ),
      ground (arith, lookup-insert l l k (insert a k s.by_leg), eq_iff l l),
      ground arith,
      ground arith,
    ),
    ground arith,
  )
]
