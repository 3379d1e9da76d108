-- ===== src/ContactCentre/Registry/Loops.antt =====
-- What the loops of the call registry do to the first call with a leg id.
use example_applications.Base.{
  String, ◌==◌, string_eq, ◌≡◌, ◌≢◌, refl, Option, none, some, List, [], ◌∷◌, arith, Bool-cases,
  Option-cases, text_cases, inl, inr, eq_iff,
}
use example_applications.ContactCentre.Registry.{LiveCall, modify, first}

-- `ds` is `cs` with the first call of leg `leg` changed by `f`.
pub data Modified (leg : String) (f : LiveCall → Option LiveCall)
    : List LiveCall → List LiveCall → Type 0 where
  here :
      {c d : LiveCall} {cs : List LiveCall}
      → c.leg_id ≡ leg
      → f c ≡ some d
      → Modified leg f (c ∷ cs) (d ∷ cs)
  there :
      {c : LiveCall} {cs ds : List LiveCall}
      → c.leg_id ≢ leg
      → Modified leg f cs ds
      → Modified leg f (c ∷ cs) (c ∷ ds)

pub modify-Modified :
    (leg : String) (f : LiveCall → Option LiveCall) (cs : List LiveCall) {ds : List LiveCall}
    → modify leg f cs ≡ some ds
    → Modified leg f cs ds
unfolding modify
modify-Modified leg f [] e = cc
modify-Modified leg f (c ∷ cs) {ds} e = elim (text_cases c.leg_id leg) [
  | inl hit ↦ elim (Option-cases (f c)) [
    | inl q ↦ absurd (ground (arith, eq_iff c.leg_id leg))
    | inr (d, q) ↦ let p : ds ≡ d ∷ cs = ground (arith, eq_iff c.leg_id leg) in rw p (here hit q)
  ]
  | inr miss ↦ elim (Option-cases (modify leg f cs)) [
    | inl q ↦ absurd (ground (arith, eq_iff c.leg_id leg))
    | inr (rest, q) ↦
        let p : ds ≡ c ∷ rest = ground (arith, eq_iff c.leg_id leg) in
        rw p (there miss (modify-Modified leg f cs q))
  ]
]

-- The loop ends in a change exactly if the first call with the leg lets itself be changed.
pub modify-accepts :
    (leg : String) (f : LiveCall → Option LiveCall) (cs : List LiveCall) (c d : LiveCall)
    → first (λ x. x.leg_id == leg) cs ≡ some c
    → f c ≡ some d
    → (ds : List LiveCall) × (modify leg f cs ≡ some ds)
unfolding modify first
modify-accepts leg f [] c d e q = cc
modify-accepts leg f (x ∷ cs) c d e q = elim (Bool-cases (x.leg_id == leg)) [
  | inl hit ↦ (d ∷ cs, ground arith)
  | inr miss ↦
      let (ds, p) = modify-accepts leg f cs c d (ground arith) q in (x ∷ ds, ground (arith, p))
]

-- Where the first call with the leg refuses, or there is none, so does the loop.
pub modify-refuses :
    (leg : String) (f : LiveCall → Option LiveCall) (cs : List LiveCall)
    → ((c : LiveCall) → first (λ x. x.leg_id == leg) cs ≡ some c → f c ≡ none)
    → modify leg f cs ≡ none
unfolding modify first
modify-refuses leg f [] h = refl
modify-refuses leg f (x ∷ cs) h = elim (Bool-cases (x.leg_id == leg)) [
  | inl hit ↦ ground (arith, h x)
  | inr miss ↦ ground (arith, modify-refuses leg f cs (λ c e. h c (rw miss e)))
]
