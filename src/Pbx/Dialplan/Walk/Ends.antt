-- ===== src/Pbx/Dialplan/Walk/Ends.antt =====
-- Whether a walk ends: the step count bounds it, except through nodes that restart the count.
use example_applications.Base.{
  ℕ, zero, suc, ◌+◌, ◌≤◌, ◌<◌, String, ◌==◌, string_eq, ◌≡◌, refl, ◌≢◌, inl, inr, Bool, true, false,
  not, Option, none, some, [], ◌∷◌, arith, ltb, if◌then◌else◌, Bool-cases, Option-cases,
}
use example_applications.Pbx.Dialplan.Graph.{
  Node, NodeType, match, ext, forward, play, tts, answer, wait, port_next, port_noanswer, node,
  edge_to, param,
}
use example_applications.Pbx.Dialplan.Exec
use example_applications.Pbx.Dialplan.Exec.{Env, Outcome}
use example_applications.Pbx.Dialplan.Walk.{max_steps, Walker, targets_of, no_answer, visit, walk}

-- A node that may restart the step count: a play or tts node with nothing to say, and an ext or
-- forward node with a wired noanswer port.
abbrev pub restarts : Env → Node → NodeType → Bool
restarts v n play = param n "url" "" == ""
restarts v n tts = param n "text" "" == ""
restarts v n ext = not (edge_to v.graph n.id port_noanswer == "")
restarts v n forward = not (edge_to v.graph n.id port_noanswer == "")
restarts v n _ = false

no_answer-ne-none :
    (v : Env) (w : Walker) (e : Exec.Exec) (n : Node)
    → not (edge_to v.graph n.id port_noanswer == "") ≡ false
    → no_answer v w e n ≢ none
unfolding no_answer
no_answer-ne-none v w e n h = ground arith

-- A visit that cannot restart the count ends, or hands on with the next step.
visit-ne-none :
    (v : Env) (w : Walker) (e : Exec.Exec) (n : Node) (step : ℕ) (k : NodeType)
    → restarts v n k ≡ false
    → ((d : Exec.Exec) (id : String) → w d id (suc step) ≢ none)
    → visit v k w e n step ≢ none
unfolding visit
visit-ne-none v w e n step match h on = on _ _
visit-ne-none v w e n step ext h on =
    ground (arith, no_answer-ne-none v w (record e { registered = false }) n h)
visit-ne-none v w e n step forward h on =
    ground (arith, no_answer-ne-none v w (record e { registered = false }) n h)
visit-ne-none v w e n step answer h on = ground (arith, on e (edge_to v.graph n.id port_next))
visit-ne-none v w e n step wait h on = ground (arith, on e (edge_to v.graph n.id port_next))
visit-ne-none v w e n step _ h on = ground arith

-- No node of the graph can restart the step count.
abbrev pub NeverRestarts : Env → Type 0
NeverRestarts v = (id : String) (n : Node) → node v.graph id ≡ some n → restarts v n n.type ≡ false

walk-ne-none :
    (v : Env) (f : ℕ) (e : Exec.Exec) (id : String) (step : ℕ)
    → NeverRestarts v
    → max_steps + 2 ≤ f + step
    → 0 < f
    → walk v f e id step ≢ none
unfolding walk
walk-ne-none v zero e id step h enough some_fuel = absurd (omega arith)
walk-ne-none v (suc f) e id step h enough some_fuel = elim (Bool-cases (ltb max_steps step)) [
  | inl over ↦ ground arith
  | inr room ↦ elim (Option-cases (node v.graph id)) [
    | inl q ↦ ground arith
    | inr (n, q) ↦ ground (
      arith,
      visit-ne-none v (walk v f) e n step n.type (h id n q)
          (λ d j. walk-ne-none v f d j (suc step) h (ground arith) (ground arith)),
    )
  ]
]

-- In a graph without nodes that restart the count, every walk from step 0 comes to an end within 52
-- visits, whatever cycles the graph has.
pub walk_ends :
    (v : Env) (e : Exec.Exec) (id : String)
    → NeverRestarts v
    → (o : Exec.Exec × Outcome) × (walk v 52 e id 0 ≡ some o)
walk_ends v e id h = elim (Option-cases (walk v 52 e id 0)) [
  | inl q ↦ absurd (walk-ne-none v 52 e id 0 h (omega arith) (omega arith) q)
  | inr found ↦ found
]

-- Where a node hands the call on at once and at step 0: a play or tts node with nothing to say goes
-- to its next port, and an ext node that reaches nobody to its noanswer port.
abbrev pub hands_on : Env → Node → NodeType → Option String
hands_on v n play = if param n "url" "" == "" then some (edge_to v.graph n.id port_next) else none
hands_on v n tts = if param n "text" "" == "" then some (edge_to v.graph n.id port_next) else none
hands_on v n ext = elim (targets_of v (v.split_csv (param n "number" ""))) [
  | [] ↦
      if edge_to v.graph n.id port_noanswer == ""
      then none
      else some (edge_to v.graph n.id port_noanswer)
  | _ ∷ _ ↦ none
]
hands_on v n _ = none

visit-hands_on :
    (v : Env) (w : Walker) (e : Exec.Exec) (n : Node) (step : ℕ) (k : NodeType) (next : String)
    → hands_on v n k ≡ some next
    → ((d : Exec.Exec) → w d next 0 ≡ none)
    → visit v k w e n step ≡ none
unfolding visit
visit-hands_on v w e n step play next h on = ground (arith, on e)
visit-hands_on v w e n step tts next h on = ground (arith, on e)
visit-hands_on v w e n step ext next h on = ground (arith, on (record e { registered = true }))
visit-hands_on v w e n step _ next h on = absurd (ground arith)

-- The step limit does not stop a walk among such nodes: where each node of a set hands the call on
-- to a node of the set, a walk that starts there at a step within the limit has not ended after any
-- number of visits. A single play node without a url whose next port leads back to it is such a set.
pub walk_never_ends :
    (v : Env) (P : String → Type 0)
    → ((id : String)
        → P id
        → (n : Node) × (next : String) × (node v.graph id ≡ some n)
          × (hands_on v n n.type ≡ some next)
          × P next)
    → (fuel : ℕ) (e : Exec.Exec) (id : String) (step : ℕ) → P id
    → step ≤ max_steps
    → walk v fuel e id step ≡ none
unfolding walk
walk_never_ends v P closed zero e id step p h = refl
walk_never_ends v P closed (suc f) e id step p h =
    let (n, next, found, on, p') = closed id p in
    ground (
      arith,
      found,
      visit-hands_on v (walk v f) e n step n.type next on
          (λ d. walk_never_ends v P closed f d next 0 p' (omega arith)),
    )
