-- ===== src/Ptt/Floor/Interleavings.antt =====
-- Handlers that overlap: the floor is free again before the old burst's media work has been done.
use example_applications.Base.{
  ℕ, String, ◌≡◌, true, none, some, arith, lookup, erase, insert, insert_at, erase_at, string_eq,
  ◌≢◌, ◌∷◌, eq_iff,
}
use example_applications.Ptt.Presence.{no_role, World, mem, members, stop, send}
use example_applications.Ptt.Floor.{end_claim, press, press_claim, teardown, offer_start}
use example_applications.Ptt.Floor.OneSpeaker.{
  Keeps, role, room, press_open-true-Keeps, teardown-Keeps, teardown-role,
}

press_free-Keeps :
    (w : World) (b : ℕ)
    → lookup (room w b) w.active ≡ none
    → Keeps (record w { active = insert (room w b) b w.active }) (press w b true)
unfolding press
press_free-Keeps w b free =
    rw (free, press, press_claim)
      (press_open-true-Keeps (record w { active = insert (room w b) b w.active }) b)

-- The release of `a`, cut after its decision, a whole press of `b`, and then the rest of the release.
abbrev pub overtaken : World → ℕ → ℕ → World
overtaken w a b = teardown (press (end_claim w a).0 b true) (room w a)

stripped_offer :
    (w : World) (s : ℕ) (sdp : String)
    → sdp ≢ ""
    → role w s ≡ no_role
    → ((offer_start w s sdp).0.sent ≡ (s, stop) ∷ w.sent)
      × ((offer_start w s sdp).0.vsi ≡ w.vsi)
      × ((offer_start w s sdp).1 ≡ none)
unfolding offer_start send
stripped_offer w s sdp offered stripped = ground (arith, eq_iff sdp "")

-- If the holder of a room lets go, another session that is present in the room presses before the
-- media of the old burst are torn down, and the room opens, then the late teardown strips the new
-- holder: the floor still names it, but it has no role, and what an offer of media (with an SDP) from
-- it sends is a stop to it and nothing else, after which the offer is not negotiated.
pub late_teardown_strips_holder :
    (w : World) (a b : ℕ) (sdp : String)
    → lookup (room w a) w.active ≡ some a
    → room w b ≡ room w a
    → mem b (members w (room w b)) ≡ true
    → sdp ≢ ""
    → (lookup (room w a) (overtaken w a b).active ≡ some b)
      × (role (overtaken w a b) b ≡ no_role)
      × ((offer_start (overtaken w a b) b sdp).0.sent ≡ (b, stop) ∷ (overtaken w a b).sent)
      × ((offer_start (overtaken w a b) b sdp).0.vsi ≡ (overtaken w a b).vsi)
      × ((offer_start (overtaken w a b) b sdp).1 ≡ none)
unfolding end_claim members
late_teardown_strips_holder w a b sdp held same here offered = (
  floor,
  stripped,
  (stripped_offer (overtaken w a b) b sdp offered stripped).0,
  (stripped_offer (overtaken w a b) b sdp offered stripped).1,
  (stripped_offer (overtaken w a b) b sdp offered stripped).2,
)
  where
    freed : World
    freed = record w { active = erase (room w a) w.active }

    decided : (end_claim w a).0 ≡ freed
    decided = ground arith

    k : Keeps (record freed { active = insert (room w b) b freed.active }) (press freed b true)
    k = press_free-Keeps freed b (ground (arith, erase_at (room w a) (room w b) w.active))

    floor : lookup (room w a) (overtaken w a b).active ≡ some b
    floor =
        rw (decided, (teardown-Keeps (press freed b true) (room w a)).floor, k.floor)
          (ground (arith, insert_at (room w b) (room w a) b (erase (room w a) w.active)))

    stripped : role (overtaken w a b) b ≡ no_role
    stripped = rw decided (ground (arith, teardown-role (press freed b true) (room w a) b, k.index))
