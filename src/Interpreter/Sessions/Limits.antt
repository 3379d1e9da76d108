-- ===== src/Interpreter/Sessions/Limits.antt =====
-- When a session is ended for its age.
use example_applications.Base.{
  ℕ, ◌+◌, ◌≤◌, String, string_eq, ◌≡◌, ◌⊎◌, ◌↔◌, refl, sym, ◌∙◌, eq_iff, Bool, true, false, Option,
  none, some, arith, ltb, if◌then◌else◌, inl, inr, Bool-cases,
}
use example_applications.Interpreter.Sessions.{Session, Config, over, expiry}

-- A limit of 0 is no limit, a time that is not set runs no clock, and else no more than the limit
-- may have passed.
abbrev pub Within : ℕ → ℕ → Option ℕ → Type 0
Within now limit none = Unit {0}
Within now limit (some t) = (limit ≡ 0) ⊎ (now ≤ t + limit)

Within-over :
    (now limit : ℕ) (since : Option ℕ) → over now limit since ≡ false → Within now limit since
unfolding over
Within-over now limit none h = tt
Within-over now limit (some t) h = elim (Bool-cases (ltb 0 limit)) [
  | inl e ↦ inr (ground arith)
  | inr e ↦ inl (ground arith)
]

over-Within :
    (now limit : ℕ) (since : Option ℕ) → Within now limit since → over now limit since ≡ false
unfolding over
over-Within now limit none h = refl
over-Within now limit (some t) (inl h) = ground arith
over-Within now limit (some t) (inr h) = ground arith

-- The reason of a session that is open, from what it is past.
reason : Bool → Bool → Bool → String
reason empty long idle =
    if empty
    then "abandoned"
    else if long
    then "time limit reached"
    else if idle
    then "no speech for a while"
    else ""

reason_none :
    (empty long idle : Bool)
    → reason empty long idle ≡ ""
    → (empty ≡ false) × (long ≡ false) × (idle ≡ false)
unfolding reason
reason_none true long idle h = absurd (ground (arith, eq_iff "abandoned" ""))
reason_none false true idle h = absurd (ground (arith, eq_iff "time limit reached" ""))
reason_none false false true h = absurd (ground (arith, eq_iff "no speech for a while" ""))
reason_none false false false h = (refl, refl, refl)

expiry_open :
    (s : Session) (now : ℕ) (cfg : Config)
    → s.closed ≡ false
    → expiry s now cfg
      ≡ reason
          (over now cfg.empty_timeout s.empty_since)
          (over now cfg.max_duration s.started_at)
          (over now cfg.idle_timeout s.last_activity)
unfolding expiry reason
expiry_open s now cfg still_open = rw still_open refl

expiry_closed : (s : Session) (now : ℕ) (cfg : Config) → s.closed ≡ true → expiry s now cfg ≡ ""
unfolding expiry
expiry_closed s now cfg ended = rw ended refl

-- Exactly the open sessions that are past a limit are ended: `expiry` gives no reason if and only if
-- the session is closed already, or has not been empty, lasted, and been silent for longer than the
-- limits that are set allow.
pub expiry_iff :
    (s : Session) (now : ℕ) (cfg : Config)
    → (expiry s now cfg ≡ "") ↔ (
        (s.closed ≡ true)
        ⊎ (Within now cfg.empty_timeout s.empty_since
            × Within now cfg.max_duration s.started_at
            × Within now cfg.idle_timeout s.last_activity))
unfolding reason
expiry_iff s now cfg = elim (Bool-cases s.closed) [
  | inl e ↦ (λ h. inl e, λ h. expiry_closed s now cfg e)
  | inr e ↦
      let given = expiry_open s now cfg e in
      (
        λ h.
            let (a, b, c) = reason_none _ _ _ (sym given ∙ h) in
            inr (
              Within-over now _ s.empty_since a,
              Within-over now _ s.started_at b,
              Within-over now _ s.last_activity c,
            ),
        λ h. elim h [
          | inl closed ↦ expiry_closed s now cfg closed
          | inr (a, b, c) ↦
              given
              ∙ rw
                  (
                    over-Within now cfg.empty_timeout s.empty_since a,
                    over-Within now cfg.max_duration s.started_at b,
                    over-Within now cfg.idle_timeout s.last_activity c,
                  )
                  refl
        ],
      )
]
