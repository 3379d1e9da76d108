-- ===== src/ContactCentre/CallLog.antt =====
-- cmd/contact-centre/calllog.go: the entry written for a finished call, and the in-memory store, a
-- ring buffer that keeps the newest entries.
pub mod Newest
use example_applications.Base.{
  ℕ, zero, suc, ◌+◌, ◌-◌, ◌%◌, String, ◌==◌, string_eq, nat_eq, Bool, not, ◌&&◌, Option, none, some,
  List, [], ◌∷◌, length, get_elem?, set, replicate, ltb, if◌then◌else◌,
}
use example_applications.ContactCentre.Registry.{CallView}

-- The outcomes that `newLogEntry` writes.
pub data Outcome : Type 0 where
  abandoned answered failed : Outcome

-- One line of a transcript, of which the log looks at nothing.
pub record LogEntry : Type 0 where
  pub leg_id : String
  pub from : String
  pub to : String
  pub started_at : ℕ
  pub answered_at : Option ℕ
  pub ended_at : ℕ
  pub outcome : Outcome
  pub agent_id : String
  pub agent_name : String
  pub transferred_from : String
  pub transcript : List String

unfoldable pub new_log_entry : CallView → List String → ℕ → LogEntry
new_log_entry c transcript now =
    let was_answered : Bool = not (c.answered_by_agent_id == "") in
    record {
      leg_id = c.leg_id;
      from = c.from;
      to = c.to;
      started_at = c.started_at;
      answered_at = if was_answered then c.answered_at else none;
      ended_at = now;
      outcome = if was_answered then answered else abandoned;
      agent_id = if was_answered then c.answered_by_agent_id else "";
      agent_name = if was_answered then c.answered_by_name else "";
      transferred_from = c.transferred_from;
      transcript = transcript;
    }

-- The store is generic here in its entries; `blank` is Go's zero value, with which the buffer starts.
pub record MemStore {ℓ} (E : Type ℓ) : Type ℓ where
  pub buf : List E
  pub cap : ℕ
  pub head : ℕ
  pub count : ℕ

-- A capacity that is not positive is 0 here.
abbrev pub capacity_of : ℕ → ℕ
capacity_of capacity = if capacity == 0 then 200 else capacity

-- `idx--` and the wrap below 0.
abbrev pub prev : ℕ → ℕ → ℕ
prev cap idx = if idx == 0 then cap - 1 else idx - 1

module _ {ℓ} {E : Type ℓ} where
  unfoldable pub new_mem_store : E → ℕ → MemStore E
  new_mem_store blank capacity = record {
    buf = replicate (capacity_of capacity) blank;
    cap = capacity_of capacity;
    head = 0;
    count = 0;
  }

  unfoldable pub append : MemStore E → E → MemStore E
  append m e = record m {
    buf = set m.buf m.head e;
    head = (m.head + 1) % m.cap;
    count = if ltb m.count m.cap then m.count + 1 else m.count;
  }

  -- The loop of `List`; `none` is an index out of range.
  unfoldable pub walk : List E → ℕ → ℕ → ℕ → Option (List E)
  walk buf cap idx zero = some []
  walk buf cap idx (suc n) =
      let rest = walk buf cap (prev cap idx) n in
      elim (get_elem? buf idx) [
        | none ↦ none
        | some e ↦ elim rest [ none ↦ none | some es ↦ some (e ∷ es) ]
      ]

  -- `List`; a limit that is not positive is 0 here.
  unfoldable pub list : MemStore E → ℕ → Option (List E)
  unfolding walk
  list m limit =
      let n : ℕ = if ltb 0 limit && ltb limit m.count then limit else m.count in
      walk m.buf m.cap (prev m.cap m.head) n

  -- The calls that end one after another, the first one first.
  unfoldable pub append_all : MemStore E → List E → MemStore E
  append_all m [] = m
  append_all m (e ∷ es) = append_all (append m e) es
