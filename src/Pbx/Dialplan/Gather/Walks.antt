-- ===== src/Pbx/Dialplan/Gather/Walks.antt =====
-- What holds of a call through every walk: a rule for predicates that do not look at how the call
-- waits.
use example_applications.Base.{
  ℕ, zero, suc, String, ◌==◌, string_eq, Bool, true, false, not, ◌||◌, Option, none, some, ltb,
  if◌then◌else◌, Bool-cases, Option-cases, List-cases, inl, inr,
}
use example_applications.Pbx.Dialplan.Graph.{
  Node, NodeType, start, match, ext, ivr, reject, forward, play, tts, answer, gather, wait, other,
  port_noanswer, node, edge_to, param,
}
use example_applications.Pbx.Dialplan.Exec
use example_applications.Pbx.Dialplan.Exec.{Env, Outcome, suspend}
use example_applications.Pbx.Dialplan.Walk.{
  max_steps, Visit, Walker, targets_of, forward_trunk, wait_seconds, no_answer, route_extension,
  forward_call, prompt, start_gather, visit, walk, on_connected, on_prompt_finished,
}

-- The predicate survives a change of how the call waits, and the start of a menu.
pub record IsLasting (v : Env) (Q : Exec.Exec → Type 0) : Type 0 where
  pub wait_on :
      (e : Exec.Exec) (registered answered : Bool) (resume pending next : String)
      → Q e
      → Q (record e {
        registered = registered;
        answered = answered;
        resume_node = resume;
        pending_id = pending;
        next_node = next;
      })
  pub silence : (e : Exec.Exec) (id : String) → Q e → Q (record e { gather_prompt_id = id })
  pub open_menu : (e : Exec.Exec) (n : Node) → Q e → Q (start_gather v e n).0

module _ (v : Env) (Q : Exec.Exec → Type 0) (lasting : IsLasting v Q) where
  abbrev Holds : Visit → Type 0
  Holds none = Unit
  Holds (some (e, o)) = Q e

  abbrev Keeps : Walker → Type 0
  Keeps w = (e : Exec.Exec) (id : String) (step : ℕ) → Q e → Holds (w e id step)

  if-Holds : (b : Bool) (x y : Visit) → Holds x → Holds y → Holds (if b then x else y)
  if-Holds true x y h k = h
  if-Holds false x y h k = k

  reject-Holds : (e : Exec.Exec) (r : String) → Q e → Holds (some (Exec.reject e r))
  unfolding Exec.reject
  reject-Holds e r q = lasting.wait_on e false e.answered e.resume_node e.pending_id e.next_node q

  answer-Holds : (e : Exec.Exec) (id : String) → Q e → Holds (some (Exec.answer v e id))
  unfolding Exec.answer Exec.reject
  answer-Holds e id q = elim (Bool-cases v.answer_leg) [
    | inl p ↦
        rw (p, Exec.answer)
          (lasting.wait_on e e.registered e.answered id e.pending_id e.next_node q)
    | inr p ↦ rw (p, Exec.answer) (lasting.wait_on e false e.answered id e.pending_id e.next_node q)
  ]

  gone : (e : Exec.Exec) (registered : Bool) → Q e → Q (record e { registered = registered })
  gone e registered q =
      lasting.wait_on e registered e.answered e.resume_node e.pending_id e.next_node q

  no_answer-Holds :
      (w : Walker) (e : Exec.Exec) (n : Node) → Keeps w → Q e → Holds (no_answer v w e n)
  unfolding no_answer
  no_answer-Holds w e n h q = elim (Bool-cases (edge_to v.graph n.id port_noanswer == "")) [
    | inl p ↦ rw (p, no_answer) q
    | inr p ↦ rw (p, no_answer) (h (record e { registered = true }) _ 0 (gone e true q))
  ]

  route-Holds :
      (w : Walker) (e : Exec.Exec) (n : Node) → Keeps w → Q e → Holds (route_extension v w e n)
  unfolding route_extension
  route-Holds w e n h q = elim (List-cases (targets_of v (v.split_csv (param n "number" "")))) [
    | inl p ↦
        rw (p, route_extension)
          (no_answer-Holds w (record e { registered = false }) n h (gone e false q))
    | inr (t, ts, p) ↦ rw (p, route_extension) (gone e false q)
  ]

  forward-Holds :
      (w : Walker) (e : Exec.Exec) (n : Node) → Keeps w → Q e → Holds (forward_call v w e n)
  unfolding forward_call
  forward-Holds w e n h q =
      let failed = no_answer-Holds w (record e { registered = false }) n h (gone e false q) in
      elim (Option-cases (forward_trunk v e n)) [
        | inl p ↦ rw (p, forward_call) failed
        | inr (t, p) ↦ elim (Bool-cases (param n "number" "" == "" || t.dial_host == "")) [
          | inl b ↦ rw (p, forward_call, b) failed
          | inr b ↦ rw (p, forward_call, b) (gone e false q)
        ]
      ]

  prompt-Holds :
      (key : String) (play_it : String → Option String) (w : Walker) (e : Exec.Exec) (n : Node)
      → Keeps w
      → Q e
      → Holds (prompt key play_it v w e n)
  unfolding prompt suspend
  prompt-Holds key play_it w e n h q = elim (Bool-cases (param n key "" == "")) [
    | inl p ↦ rw (p, prompt) (h e _ 0 q)
    | inr p ↦
        rw (p, prompt)
          (if-Holds (not e.answered) _ _ (answer-Holds e n.id q)
            (elim (Option-cases (play_it (param n key ""))) [
              | inl s ↦ rw s (reject-Holds e "declined" q)
              | inr (id, s) ↦ rw s (lasting.wait_on e e.registered e.answered e.resume_node id _ q)
            ]))
  ]

  visit-Holds :
      (k : NodeType) (w : Walker) (e : Exec.Exec) (n : Node) (step : ℕ)
      → Keeps w
      → Q e
      → Holds (visit v k w e n step)
  unfolding visit
  visit-Holds match w e n step h q = h e _ (suc step) q
  visit-Holds ext w e n step h q = route-Holds w e n h q
  visit-Holds forward w e n step h q = forward-Holds w e n h q
  visit-Holds play w e n step h q = prompt-Holds "url" v.play_start w e n h q
  visit-Holds tts w e n step h q = prompt-Holds "text" v.tts_start w e n h q
  visit-Holds gather w e n step h q = lasting.open_menu e n q
  visit-Holds ivr w e n step h q = gone e false q
  visit-Holds answer w e n step h q = elim (Bool-cases e.answered) [
    | inr a ↦ rw (a, visit) (answer-Holds e n.id q)
    | inl a ↦ rw (a, visit) (h e _ (suc step) q)
  ]
  visit-Holds wait w e n step h q = elim (Bool-cases (ltb 0 (wait_seconds v n))) [
    | inr a ↦ rw (a, visit) (h e _ (suc step) q)
    | inl a ↦ rw (a, visit) q
  ]
  visit-Holds reject w e n step h q = reject-Holds e (param n "reason" "declined") q
  visit-Holds start w e n step h q = reject-Holds e "declined" q
  visit-Holds other w e n step h q = reject-Holds e "declined" q

  pub walk-Holds :
      (fuel : ℕ) (e : Exec.Exec) (id : String) (step : ℕ) → Q e → Holds (walk v fuel e id step)
  unfolding walk
  walk-Holds zero e id step q = tt
  walk-Holds (suc f) e id step q = elim (Bool-cases (ltb max_steps step)) [
    | inl p ↦ rw (p, walk) (reject-Holds e "declined" q)
    | inr p ↦ elim (Option-cases (node v.graph id)) [
      | inl s ↦ rw (p, s, walk) (reject-Holds e "declined" q)
      | inr (n, s) ↦
          rw (p, s, walk)
            (visit-Holds n.type (walk v f) e n step (λ d j k h. walk-Holds f d j k h) q)
    ]
  ]

  abbrev pub HoldsNext : Option (Exec.Exec × Option Outcome) → Type 0
  HoldsNext none = Unit
  HoldsNext (some (e, o)) = Q e

  abbrev next_of : Visit → Option (Exec.Exec × Option Outcome)
  next_of none = none
  next_of (some (e, o)) = some (e, some o)

  if_next-Holds :
      (b : Bool) (x y : Option (Exec.Exec × Option Outcome))
      → HoldsNext x
      → HoldsNext y
      → HoldsNext (if b then x else y)
  if_next-Holds true x y h k = h
  if_next-Holds false x y h k = k

  if_call-Holds : (b : Bool) (x y : Exec.Exec) → Q x → Q y → Q (if b then x else y)
  if_call-Holds true x y h k = h
  if_call-Holds false x y h k = k

  walk_next-Holds :
      (fuel : ℕ) (e : Exec.Exec) (id : String) → Q e → HoldsNext (next_of (walk v fuel e id 0))
  walk_next-Holds fuel e id q = elim (Option-cases (walk v fuel e id 0)) [
    | inl s ↦ rw s tt
    | inr (r, s) ↦ rw s (rw s at (walk-Holds fuel e id 0 q))
  ]

  pub on_connected-Holds : (fuel : ℕ) (e : Exec.Exec) → Q e → HoldsNext (on_connected v fuel e)
  unfolding on_connected
  on_connected-Holds fuel e q =
      let up = lasting.wait_on e e.registered true "" e.pending_id e.next_node q in
      elim (Bool-cases (e.resume_node == "")) [
        | inl p ↦ rw (p, on_connected) up
        | inr p ↦ rw (p, on_connected) (walk_next-Holds fuel _ e.resume_node up)
      ]

  pub on_prompt_finished-Holds :
      (fuel : ℕ) (e : Exec.Exec) (id : String) → Q e → HoldsNext (on_prompt_finished v fuel e id)
  unfolding on_prompt_finished
  on_prompt_finished-Holds fuel e id q =
      if_next-Holds e.gathering _ _
        (if_call-Holds (e.gather_prompt_id == id) _ _ (lasting.silence e "" q) q)
        (elim (Bool-cases (e.pending_id == "" || not (e.pending_id == id))) [
          | inl p ↦ rw p q
          | inr p ↦ rw p (
              walk_next-Holds fuel _ e.next_node
                (lasting.wait_on e e.registered e.answered e.resume_node "" "" q))
        ])
