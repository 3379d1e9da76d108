-- ===== src/Pbx/Dialplan/Walk/Media.antt =====
-- What a walk leaves behind: media only on an answered leg, and a registered call exactly where it waits.
use example_applications.Base.{
  ℕ, zero, suc, String, ◌==◌, string_eq, ◌≡◌, refl, Bool, true, false, not, ◌||◌, if◌then◌else◌,
  Option, none, some, arith, ltb, Bool-cases, Option-cases, List-cases, inl, inr,
}
use example_applications.Pbx.Dialplan.Graph.{
  Node, NodeType, start, match, ext, ivr, reject, forward, play, tts, answer, gather, wait, other,
  port_noanswer, node, edge_to, param,
}
use example_applications.Pbx.Dialplan.Exec
use example_applications.Pbx.Dialplan.Exec.{
  Env, Outcome, hung_up, answering, suspend, waiting, ringing, forwarding, prompting, gathering,
  safe_hangup_reason, is_valid_reason,
}
use example_applications.Pbx.Dialplan.Walk.{
  max_steps, Visit, Walker, targets_of, forward_trunk, wait_seconds, no_answer, route_extension,
  forward_call, prompt, start_gather, visit, walk,
}

-- The invariant at the end of a walk, by what it ended in.
abbrev pub Settled : Exec.Exec → Outcome → Type 0
Settled e (hung_up reason) =
    (e.registered ≡ false) × (is_valid_reason reason || reason == "" ≡ true)
Settled e Outcome.ivr = e.registered ≡ false
Settled e (ringing ts secs wired) = e.registered ≡ false
Settled e (forwarding to from t secs wired) = e.registered ≡ false
Settled e answering = (e.registered ≡ true) × (e.answered ≡ false)
Settled e (waiting secs id) = e.registered ≡ true
Settled e (prompting id) = (e.registered ≡ true) × (e.answered ≡ true) × (e.pending_id ≡ id)
Settled e (gathering secs) = (e.registered ≡ true) × (e.answered ≡ true) × (e.gathering ≡ true)

abbrev pub AllSettled : Visit → Type 0
AllSettled none = Unit
AllSettled (some (e, o)) = Settled e o

if-Settled :
    (b : Bool) (x y : Visit)
    → (b ≡ true → AllSettled x)
    → (b ≡ false → AllSettled y)
    → AllSettled (if b then x else y)
if-Settled true x y h k = h refl
if-Settled false x y h k = k refl

if_pair-Settled :
    (b : Bool) (x y : Exec.Exec × Outcome)
    → (b ≡ true → AllSettled (some x))
    → (b ≡ false → AllSettled (some y))
    → AllSettled (some (if b then x else y))
if_pair-Settled true x y h k = h refl
if_pair-Settled false x y h k = k refl

reason_valid :
    (r : String) → is_valid_reason (safe_hangup_reason r) || safe_hangup_reason r == "" ≡ true
unfolding safe_hangup_reason
reason_valid r = elim (Bool-cases (is_valid_reason r)) [ inl h ↦ rw (h, h) | inr h ↦ rw h ]

reject-Settled : (e : Exec.Exec) (r : String) → AllSettled (some (Exec.reject e r))
unfolding Exec.reject
reject-Settled e r = (refl, reason_valid r)

answer-Settled :
    (v : Env) (e : Exec.Exec) (id : String)
    → e.registered ≡ true
    → e.answered ≡ false
    → AllSettled (some (Exec.answer v e id))
unfolding Exec.answer
answer-Settled v e id h a = elim (Bool-cases v.answer_leg) [
  | inl q ↦ rw (q, Exec.answer) (h, a)
  | inr q ↦ rw (q, Exec.answer) (reject-Settled (record e { resume_node = id }) "declined")
]

-- A walker that settles every registered call.
abbrev Settles : Walker → Type 0
Settles w =
    (e : Exec.Exec) (id : String) (step : ℕ) → e.registered ≡ true → AllSettled (w e id step)

no_answer-Settled :
    (v : Env) (w : Walker) (e : Exec.Exec) (n : Node)
    → Settles w
    → e.registered ≡ false
    → AllSettled (no_answer v w e n)
unfolding no_answer
no_answer-Settled v w e n h r = elim (Bool-cases (edge_to v.graph n.id port_noanswer == "")) [
  | inl q ↦ rw (q, no_answer) (r, refl)
  | inr q ↦ rw (q, no_answer) (h (record e { registered = true }) _ 0 refl)
]

route-Settled :
    (v : Env) (w : Walker) (e : Exec.Exec) (n : Node)
    → Settles w
    → AllSettled (route_extension v w e n)
unfolding route_extension
route-Settled v w e n h = elim (List-cases (targets_of v (v.split_csv (param n "number" "")))) [
  | inl q ↦
      rw (q, route_extension) (no_answer-Settled v w (record e { registered = false }) n h refl)
  | inr (t, ts, q) ↦ rw (q, route_extension) refl
]

forward-Settled :
    (v : Env) (w : Walker) (e : Exec.Exec) (n : Node)
    → Settles w
    → AllSettled (forward_call v w e n)
unfolding forward_call
forward-Settled v w e n h =
    let failed = no_answer-Settled v w (record e { registered = false }) n h refl in
    elim (Option-cases (forward_trunk v e n)) [
      | inl q ↦ rw (q, forward_call) failed
      | inr (t, q) ↦ elim (Bool-cases (param n "number" "" == "" || t.dial_host == "")) [
        | inl b ↦ rw (q, forward_call, b) failed
        | inr b ↦ rw (q, forward_call, b) refl
      ]
    ]

prompt-Settled :
    (key : String) (play_it : String → Option String) (v : Env) (w : Walker) (e : Exec.Exec)
    (n : Node)
    → Settles w
    → e.registered ≡ true
    → AllSettled (prompt key play_it v w e n)
unfolding prompt suspend
prompt-Settled key play_it v w e n h r = elim (Bool-cases (param n key "" == "")) [
  | inl q ↦ rw (q, prompt) (h e _ 0 r)
  | inr q ↦
      rw (q, prompt)
        (if-Settled (not e.answered) _ _ (λ a. answer-Settled v e n.id r (ground arith))
          λ a. elim (Option-cases (play_it (param n key ""))) [
            | inl p ↦ rw p (reject-Settled e "declined")
            | inr (id, p) ↦ rw p (r, ground arith, refl)
          ])
]

gather-Settled :
    (v : Env) (e : Exec.Exec) (n : Node)
    → e.registered ≡ true
    → AllSettled (some (start_gather v e n))
unfolding start_gather
gather-Settled v e n r =
    if_pair-Settled (not e.answered) _ _ (λ a. answer-Settled v e n.id r (ground arith))
      (λ a. (r, ground arith, refl))

visit-Settled :
    (v : Env) (k : NodeType) (w : Walker) (e : Exec.Exec) (n : Node) (step : ℕ)
    → Settles w
    → e.registered ≡ true
    → AllSettled (visit v k w e n step)
unfolding visit
visit-Settled v match w e n step h r = h e _ (suc step) r
visit-Settled v ext w e n step h r = route-Settled v w e n h
visit-Settled v forward w e n step h r = forward-Settled v w e n h
visit-Settled v play w e n step h r = prompt-Settled "url" v.play_start v w e n h r
visit-Settled v tts w e n step h r = prompt-Settled "text" v.tts_start v w e n h r
visit-Settled v gather w e n step h r = gather-Settled v e n r
visit-Settled v ivr w e n step h r = refl
visit-Settled v answer w e n step h r = elim (Bool-cases e.answered) [
  | inr a ↦ rw (a, visit) (answer-Settled v e n.id r a)
  | inl a ↦ rw (a, visit) (h e _ (suc step) r)
]
visit-Settled v wait w e n step h r = elim (Bool-cases (ltb 0 (wait_seconds v n))) [
  | inr a ↦ rw (a, visit) (h e _ (suc step) r)
  | inl a ↦ rw (a, visit) r
]
visit-Settled v reject w e n step h r = reject-Settled e (param n "reason" "declined")
visit-Settled v start w e n step h r = reject-Settled e "declined"
visit-Settled v other w e n step h r = reject-Settled e "declined"

-- However a walk of a registered call ends: a prompt plays or input is gathered only on an answered
-- leg, and the call is answered only if it was not yet; the call stays registered exactly where the
-- walk waits for an event, and a hang-up gives a reason that the media server accepts, or none.
pub walk-Settled :
    (v : Env) (fuel : ℕ) (e : Exec.Exec) (id : String) (step : ℕ)
    → e.registered ≡ true
    → AllSettled (walk v fuel e id step)
unfolding walk
walk-Settled v zero e id step r = tt
walk-Settled v (suc f) e id step r = elim (Bool-cases (ltb max_steps step)) [
  | inl q ↦ rw (q, walk) (reject-Settled e "declined")
  | inr q ↦ elim (Option-cases (node v.graph id)) [
    | inl p ↦ rw (q, p, walk) (reject-Settled e "declined")
    | inr (n, p) ↦
        rw (q, p, walk)
          (visit-Settled v n.type (walk v f) e n step (λ d j s h. walk-Settled v f d j s h) r)
  ]
]
