-- ===== src/ContactCentre/Agents/Roster.antt =====
-- The roster of agents under any schedule of logins, disconnects, timers and logouts.
use example_applications.Base.{
  ℕ, ◌+◌, String, ◌==◌, string_eq, nat_eq, ◌||◌, ◌≡◌, ◌⊎◌, inl, inr, refl, sym, ◌∙◌, Bool-cases,
  Option, none, some, Option-cases, lookup, erase_at, ap, if◌then◌else◌, erase,
}
use example_applications.ContactCentre.Agents.{
  Agent, AgentRegistry, login, remove_agent, logout, schedule_remove, expire, cancel_remove,
  get_agent, set_webrtc_leg, Call, logs_in, logs_out, expires, reconnects, disconnects, sets_leg,
  step,
}

-- The roster as it was, or one more call of the callback.
abbrev pub Announced : AgentRegistry → AgentRegistry → Type 0
Announced r s = ((j : String) → lookup j s.by ≡ lookup j r.by) ⊎ (s.notified ≡ r.notified + 1)

login-Announced :
    (r : AgentRegistry) (name : String) (fresh : Option String) (now : ℕ)
    → Announced r (login r name fresh now).0
unfolding login
login-Announced r name none now = elim (Bool-cases (name == "")) [
  | inl e ↦ inl (λ j. rw (e, login) refl)
  | inr e ↦ inl (λ j. rw (e, login) refl)
]
login-Announced r name (some id) now = elim (Bool-cases (name == "")) [
  | inl e ↦ inl (λ j. rw (e, login) refl)
  | inr e ↦ inr (rw (e, login) refl)
]

remove_agent-Announced : (r : AgentRegistry) (id : String) → Announced r (remove_agent r id)
unfolding remove_agent
remove_agent-Announced r id = elim (Option-cases (lookup id r.by)) [
  | inl e ↦ inl (λ j.
      rw (e, remove_agent)
        (elim (erase_at id j r.by) [
          | inl (k, g) ↦ g ∙ sym e ∙ ap (λ i. lookup i r.by) k
          | inr (k, g) ↦ g
        ]))
  | inr (a, e) ↦ inr (rw (e, remove_agent) refl)
]

remove_agent-gone : (r : AgentRegistry) (id : String) → lookup id (remove_agent r id).by ≡ none
unfolding remove_agent
remove_agent-gone r id =
    let gone : lookup id (erase id r.by) ≡ none = elim (erase_at id id r.by) [
      | inl (k, g) ↦ g
      | inr (k, g) ↦ elim (k refl) [ ]
    ] in
    elim (Option-cases (lookup id r.by)) [
      | inl e ↦ rw (e, remove_agent) gone
      | inr (a, e) ↦ rw (e, remove_agent) gone
    ]

set_webrtc_leg-Announced :
    (r : AgentRegistry) (id leg : String) → Announced r (set_webrtc_leg r id leg).0
unfolding set_webrtc_leg
set_webrtc_leg-Announced r id leg = elim (Option-cases (lookup id r.by)) [
  | inl e ↦ inl (λ j. rw (e, set_webrtc_leg) refl)
  | inr (a, e) ↦ inr (rw (e, set_webrtc_leg) refl)
]

schedule_remove-by :
    (r : AgentRegistry) (id : String) (now : ℕ) → (schedule_remove r id now).by ≡ r.by
unfolding schedule_remove
schedule_remove-by r id now = elim (Bool-cases (id == "" || r.remove_after == 0)) [
  | inl e ↦ rw (e, schedule_remove) refl
  | inr e ↦ rw (e, schedule_remove) refl
]

cancel_remove-by : (r : AgentRegistry) (id : String) → (cancel_remove r id).by ≡ r.by
unfolding cancel_remove
cancel_remove-by r id = elim (Bool-cases (id == "")) [
  | inl e ↦ rw (e, cancel_remove) refl
  | inr e ↦ rw (e, cancel_remove) refl
]

-- No change of the roster goes unannounced: whatever a handler or a timer does, either every agent
-- is listed as before, or the callback that refreshes the supervisors is called once.
pub step-Announced : (r : AgentRegistry) (c : Call) → Announced r (step r c)
unfolding step logout expire
step-Announced r (logs_in name fresh now) = login-Announced r name fresh now
step-Announced r (logs_out id) = remove_agent-Announced r id
step-Announced r (expires id) = remove_agent-Announced r id
step-Announced r (reconnects id) = inl (λ j. ap (lookup j) (cancel_remove-by r id))
step-Announced r (disconnects id now) = inl (λ j. ap (lookup j) (schedule_remove-by r id now))
step-Announced r (sets_leg id leg) = set_webrtc_leg-Announced r id leg

-- If the timer of a disconnected agent has fired, and the agent's reconnection cancels the removal
-- before the timer's function gets the mutex, then the agent is on the roster right after its
-- reconnection, and is removed all the same.
pub reconnected_agent_removed :
    (r : AgentRegistry) (id : String) (a : Agent)
    → get_agent r id ≡ some a
    → (get_agent (cancel_remove r id) id ≡ some a)
      × (get_agent (expire (cancel_remove r id) id) id ≡ none)
unfolding get_agent expire
reconnected_agent_removed r id a present = (
  ap (λ m. if id == "" then none else lookup id m) (cancel_remove-by r id) ∙ present,
  elim (Bool-cases (id == "")) [
    | inl e ↦ rw e refl
    | inr e ↦ rw e (remove_agent-gone (cancel_remove r id) id)
  ],
)
