-- ===== src/ContactCentre/Registry/Legs.antt =====
-- The legs of the registered calls, which holds and transfers leave as they are.
use example_applications.Base.{
  String, string_eq, ◌≡◌, refl, Bool, Option, some, List, [], ◌∷◌, arith, Option-cases, inl, inr,
}
use example_applications.ContactCentre.Registry.{
  LiveCall, Registry, broadcast, hold, modify, committed, set_hold, TransferOutcome, hand_to,
  transfer_to,
}
use example_applications.ContactCentre.Registry.Loops.{Modified, here, there, modify-Modified}

abbrev pub legs : List LiveCall → List String
legs [] = []
legs (c ∷ cs) = c.leg_id ∷ legs cs

abbrev pub legs_of : Registry → List String
legs_of r = legs r.calls

pub Modified-legs :
    (leg : String) (f : LiveCall → Option LiveCall) {cs ds : List LiveCall}
    → ((c d : LiveCall) → f c ≡ some d → d.leg_id ≡ c.leg_id)
    → Modified leg f cs ds
    → legs ds ≡ legs cs
Modified-legs leg f keeps (here {c} {d} hit q) = ground (arith, keeps c d q)
Modified-legs leg f keeps (there miss m) = ground (arith, Modified-legs leg f keeps m)

committed-legs :
    (r : Registry) (leg : String) (f : LiveCall → Option LiveCall)
    → ((c d : LiveCall) → f c ≡ some d → d.leg_id ≡ c.leg_id)
    → legs_of (committed r (modify leg f r.calls)).0 ≡ legs_of r
unfolding committed broadcast
committed-legs r leg f keeps = elim (Option-cases (modify leg f r.calls)) [
  | inl e ↦ rw (e, committed) refl
  | inr (ds, e) ↦ rw (e, committed) (Modified-legs leg f keeps (modify-Modified leg f r.calls e))
]

pub broadcast-legs : (r : Registry) → legs_of (broadcast r) ≡ legs_of r
unfolding broadcast
broadcast-legs r = refl

pub set_hold-legs :
    (r : Registry) (leg : String) (on : Bool) (playback : String)
    → legs_of (set_hold r leg on playback).0 ≡ legs_of r
unfolding set_hold hold
set_hold-legs r leg on playback = committed-legs r leg (hold on playback) (λ c d e. ground arith)

pub transfer_to-legs :
    (r : Registry) (leg : String) (o : TransferOutcome)
    → legs_of (transfer_to r leg o).0 ≡ legs_of r
unfolding transfer_to hand_to
transfer_to-legs r leg o = committed-legs r leg (hand_to o) (λ c d e. ground arith)
