-- ===== src/Interpreter/Sessions.antt =====
-- cmd/interpreter/session.go: the conversations, each with two seats, and the index of media legs. A
-- session and a participant are pointers in Go, shared by the handlers; here they are numbers, and
-- their fields stand in stores. Random ids and times are arguments, times as nanoseconds from a
-- time before any session; a time that is not set is `none`.
pub mod Legs
pub mod Limits
use example_applications.Base.{
  ℕ, ◌-◌, String, ◌==◌, string_eq, nat_eq, Bool, true, false, not, ◌&&◌, Option, none, some, List,
  [], ◌∷◌, Table, lookup, insert, erase, ltb, Result, ok, err, if◌then◌else◌,
}
use example_applications.Interpreter.Langs

-- The fields of `participant` that the registry reads and writes.
pub record Part : Type 0 where
  pub id : String
  pub name : String
  pub slot : ℕ
  pub lang : String
  pub gender : String
  pub leg_id : String
  pub live : Bool
  pub stt_on : Bool

-- `session`; the two places of `parts` are fields. The time of its creation and the state of its room,
-- which other parts use, are left out.
pub record Session : Type 0 where
  pub id : String
  pub invite : String
  pub first : Option ℕ
  pub second : Option ℕ
  pub started_at : Option ℕ
  pub last_activity : Option ℕ
  pub empty_since : Option ℕ
  pub closed : Bool

-- sessionRegistry, with what its pointers lead to.
pub record World : Type 0 where
  pub sessions : ℕ → Session
  pub parts : ℕ → Part
  pub by_id : Table ℕ
  pub by_leg : Table ℕ
  pub leg_ses : Table ℕ

abbrev pub put {ℓ} : {A : Type ℓ} → (ℕ → A) → ℕ → A → ℕ → A
put f k x j = if k == j then x else f j

abbrev set_session : World → ℕ → Session → World
set_session w s x = record w { sessions = put w.sessions s x }

abbrev set_part : World → ℕ → Part → World
set_part w p x = record w { parts = put w.parts p x }

abbrev pub role_a : String
role_a = "pa"

abbrev pub role_b : String
role_b = "pb"

-- `role`
abbrev pub role : Part → String
role p = if p.slot == 0 then role_a else role_b

-- touch
unfoldable pub touch : World → ℕ → ℕ → World
touch w s now = set_session w s (record (w.sessions s) { last_activity = some now })

-- markStarted
unfoldable pub mark_started : World → ℕ → ℕ → World
mark_started w s now = elim (w.sessions s).started_at [
  | some t ↦ w
  | none ↦ set_session w s (record (w.sessions s) { started_at = some now })
]

-- `close`
unfoldable pub close : World → ℕ → World × Bool
close w s =
    if (w.sessions s).closed
    then (w, false)
    else (set_session w s (record (w.sessions s) { closed = true }), true)

-- The limits of `config`; a limit of 0 is disabled.
pub record Config : Type 0 where
  pub empty_timeout : ℕ
  pub max_duration : ℕ
  pub idle_timeout : ℕ

-- Whether a limit is set and more time than it has passed since a time that is set.
abbrev over : ℕ → ℕ → Option ℕ → Bool
over now limit since = elim since [ none ↦ false | some t ↦ ltb 0 limit && ltb limit (now - t) ]

-- `expiry`
unfoldable pub expiry : Session → ℕ → Config → String
unfolding over
expiry s now cfg =
    if s.closed
    then ""
    else if over now cfg.empty_timeout s.empty_since
    then "abandoned"
    else if over now cfg.max_duration s.started_at
    then "time limit reached"
    else if over now cfg.idle_timeout s.last_activity
    then "no speech for a while"
    else ""

-- `create`, as the session number `s`.
unfoldable pub create : World → ℕ → String → String → ℕ → World
create w s id invite now =
    record (set_session w s (record {
      id = id;
      invite = invite;
      first = none;
      second = none;
      started_at = none;
      last_activity = none;
      empty_since = some now;
      closed = false;
    })) { by_id = insert id s w.by_id }

unfoldable pub get : World → String → Option ℕ
get w id = lookup id w.by_id

-- errSessionNotFound and errSessionFull.
pub data JoinError : Type 0 where
  session_not_found session_full : JoinError

unfoldable pub new_part : String → String → ℕ → String → String → Part
new_part id name slot lang gender = record {
  id = id;
  name = name;
  slot = slot;
  lang = lang;
  gender = gender;
  leg_id = "";
  live = false;
  stt_on = false;
}

-- The part of `join` after the language and the gender are settled, for the participant number `p`.
unfoldable pub seat :
    World → String → ℕ → String → String → String → String → ℕ → World × Result JoinError ℕ
unfolding get new_part
seat w id p part_id name lang gender now = elim (get w id) [
  | none ↦ (w, err session_not_found)
  | some s ↦
      let x = w.sessions s in
      let seated : Session = record x { empty_since = none; last_activity = some now } in
      if x.closed then (w, err session_not_found) else elim x.first [
        | none ↦ (
          set_part (set_session w s (record seated { first = some p })) p
              (new_part part_id name 0 lang gender),
          ok p,
        )
        | some a ↦ elim x.second [
          | none ↦ (
            set_part (set_session w s (record seated { second = some p })) p
                (new_part part_id name 1 lang gender),
            ok p,
          )
          | some b ↦ (w, err session_full)
        ]
      ]
]

-- `join`
unfoldable pub join :
    Langs.Config
    → World
    → String
    → ℕ
    → String
    → String
    → String
    → String
    → ℕ
    → World × Result JoinError ℕ
unfolding seat Langs.settle_lang Langs.settle_gender
join cfg w id p part_id name lang gender now =
    seat w id p part_id name (Langs.settle_lang cfg lang) (Langs.settle_gender gender) now

abbrev vacate : ℕ → Option ℕ → Option ℕ
vacate p none = none
vacate p (some q) = if q == p then none else some q

abbrev is_none {ℓ} : {A : Type ℓ} → Option A → Bool
is_none none = true
is_none (some a) = false

-- `leave`
unfoldable pub leave : World → ℕ → ℕ → ℕ → World × Bool
unfolding vacate is_none
leave w s p now =
    let x = w.sessions s in
    let left : Session = record x { first = vacate p x.first; second = vacate p x.second } in
    if is_none left.first && is_none left.second
    then (
      record (set_session w s (record left { empty_since = some now })) {
        by_id = erase x.id w.by_id;
      },
      true,
    )
    else (set_session w s left, false)

-- The sections of bindLeg, under the participant's mutex and then under the registry's, where `old` is
-- the leg that the participant had before.
unfoldable pub bind_part : World → ℕ → String → World
bind_part w p leg = set_part w p (record (w.parts p) { leg_id = leg; live = false })

unfoldable pub bind_index : World → ℕ → ℕ → String → String → World
bind_index w s p leg old = record w {
  by_leg = insert leg p (if old == "" then w.by_leg else erase old w.by_leg);
  leg_ses = insert leg s (if old == "" then w.leg_ses else erase old w.leg_ses);
}

-- bindLeg, if nothing comes between its sections.
unfoldable pub bind_leg : World → ℕ → ℕ → String → World
unfolding bind_part bind_index
bind_leg w s p leg = bind_index (bind_part w p leg) s p leg (w.parts p).leg_id

-- The sections of unbindLeg.
unfoldable pub unbind_part : World → ℕ → World
unbind_part w p = set_part w p (record (w.parts p) { leg_id = ""; live = false; stt_on = false })

unfoldable pub unbind_index : World → String → World
unbind_index w leg = record w {
  by_leg = if leg == "" then w.by_leg else erase leg w.by_leg;
  leg_ses = if leg == "" then w.leg_ses else erase leg w.leg_ses;
}

-- unbindLeg, if nothing comes between its sections.
unfoldable pub unbind_leg : World → ℕ → World × String
unfolding unbind_part unbind_index
unbind_leg w p = let leg = (w.parts p).leg_id in (unbind_index (unbind_part w p) leg, leg)

-- forLeg
unfoldable pub for_leg : World → String → Option ℕ
for_leg w leg = lookup leg w.by_leg

-- `drop`
unfoldable pub drop : World → String → World
drop w id = record w { by_id = erase id w.by_id }
