-- ===== src/ContactCentre/CallLog/Newest.antt =====
-- The ring buffer is a list of the newest entries.
use mathlib.Core.List.{reverse_aux}
use native.Mathlib.Nat.{mod-eq_of_lt, mod_self}
use native.Mathlib.Numerals.{add-one}
use native.Mathlib.Decide.{dec_lt}
use example_applications.Base.{
  ℕ, zero, suc, ◌+◌, ◌-◌, ◌%◌, ◌≤◌, ◌<◌, ◌≡◌, refl, sym, ◌∙◌, ◌≢◌, ◌⊎◌, some, List, [], ◌∷◌,
  reverse, arith, length, set, take, length-set, get_elem?-set_self, get_elem?-set_ne,
  length-replicate, length-take, take-take, take-all, ltb, lt→ltb, ltb_refl, if◌then◌else◌, ◌==◌,
  nat_eq,
}
use example_applications.ContactCentre.CallLog.{
  MemStore, capacity_of, new_mem_store, append, prev, walk, list, append_all,
}

-- Going back from `idx`, the slot `h` is not among the next `n`.
abbrev Misses : ℕ → ℕ → ℕ → ℕ → Type 0
Misses cap h idx n = (n + h ≤ idx) ⊎ ((idx < h) × (n + h ≤ idx + cap))

mod_top : (c i : ℕ) → i ≡ c → (i + 1) % suc c ≡ 0
mod_top c i e = rw (e, add-one) (mod_self (suc c))

prev_next : (c i : ℕ) → i < suc c → prev (suc c) ((i + 1) % suc c) ≡ i
prev_next c i h = elim (dec_lt (i + 1) (suc c)) [
  | yes below ↦ rw (mod-eq_of_lt below) (ground arith)
  | no top ↦ ground (arith, mod_top c i (omega arith))
]

next_below : (c i : ℕ) → (i + 1) % suc c < suc c
next_below c i = grind arith

module _ {E : Type 0} where
  -- A walk of fewer rounds gives the front of the longer one.
  walk-take :
      (buf : List E) (cap idx m n : ℕ) (xs : List E)
      → m ≤ n
      → walk buf cap idx n ≡ some xs
      → walk buf cap idx m ≡ some (take m xs)
  unfolding walk
  walk-take buf cap idx zero n xs h e = refl
  walk-take buf cap idx (suc m) zero xs h e = absurd (omega arith)
  walk-take buf cap idx (suc m) (suc n) [] h e = absurd (ground arith)
  walk-take buf cap idx (suc m) (suc n) (x ∷ xs) h e =
      ground (arith, walk-take buf cap (prev cap idx) m n xs (omega arith))

  walk-set :
      (buf : List E) (cap h idx n : ℕ) (e : E)
      → idx < cap
      → h < cap
      → Misses cap h idx n
      → walk (set buf h e) cap idx n ≡ walk buf cap idx n
  unfolding walk
  walk-set buf cap h idx zero e i b m = refl
  walk-set buf cap h idx (suc n) e i b m =
      let ne : h ≢ idx = ground arith in
      ground (
        arith,
        get_elem?-set_ne buf {i = h} {j = idx} e ne,
        walk-set buf cap h (prev cap idx) n e (ground arith) b (ground arith),
      )

  -- The store `m` of capacity `c + 1` keeps the history `h`, the newest entry first.
  record Holds (c : ℕ) (m : MemStore E) (h : List E) : Type 0 where
    cap_is : m.cap ≡ suc c
    buf_length : length m.buf ≡ suc c
    head_below : m.head < suc c
    count_is : m.count ≡ length (take (suc c) h)
    walk_is : walk m.buf (suc c) (prev (suc c) m.head) m.count ≡ some (take (suc c) h)

  take_short : (c : ℕ) (h : List E) → length (take (suc c) h) ≤ c → take (suc c) h ≡ take c h
  take_short c h b =
      let short : length h ≤ c = omega (arith, length-take (suc c) h) in
      take-all (suc c) h (omega arith) ∙ sym (take-all c h short)

  -- The rounds after the first, once an entry was added.
  older :
      (c : ℕ) (m : MemStore E) (h : List E) (e : E) (k : ℕ)
      → Holds c m h
      → k ≤ c
      → k ≤ m.count
      → take k (take (suc c) h) ≡ take c h
      → walk (set m.buf m.head e) (suc c) m.head (suc k) ≡ some (take (suc c) (e ∷ h))
  unfolding walk
  older c m h e k v kc km same =
      let first = get_elem?-set_self m.buf m.head e (omega (arith, v.buf_length, v.head_below)) in
      let rest =
        walk-set m.buf (suc c) m.head (prev (suc c) m.head) k e (ground (arith, v.head_below))
          v.head_below (ground (arith, v.head_below)) in
      let front =
        walk-take m.buf (suc c) (prev (suc c) m.head) k m.count (take (suc c) h) km v.walk_is in
      rw (first, rest, front, same, walk)

  newer :
      (c : ℕ) (m : MemStore E) (h : List E) (e : E)
      → Holds c m h
      → walk
          (set m.buf m.head e)
          (suc c)
          m.head
          (if ltb m.count (suc c) then m.count + 1 else m.count)
        ≡ some (take (suc c) (e ∷ h))
  newer c m h e v = elim (dec_lt m.count (suc c)) [
    | yes room ↦
        rw (lt→ltb _ _ room, add-one)
          (older c m h e m.count v (omega arith) (omega arith) (
            take-all m.count (take (suc c) h) (omega (arith, v.count_is))
            ∙ take_short c h (omega (arith, v.count_is))))
    | no full ↦
        let e1 : m.count ≡ suc c = omega (arith, v.count_is, length-take (suc c) h) in
        rw (e1, ltb_refl (suc c))
          (older c m h e c v (omega arith) (omega arith) (take-take c (suc c) h (omega arith)))
  ]

  append-Holds :
      (c : ℕ) (m : MemStore E) (h : List E) (e : E) → Holds c m h → Holds c (append m e) (e ∷ h)
  unfolding append
  append-Holds c m h e v = record {
    cap_is = v.cap_is;
    buf_length = length-set m.buf m.head e ∙ v.buf_length;
    head_below = rw v.cap_is (next_below c m.head);
    count_is = ground (arith, length-take c h, length-take (suc c) h, v.count_is, v.cap_is);
    walk_is = rw (v.cap_is, prev_next c m.head v.head_below) (newer c m h e v);
  }

  append_all-Holds :
      (c : ℕ) (m : MemStore E) (h es : List E)
      → Holds c m h
      → Holds c (append_all m es) (reverse_aux es h)
  unfolding append_all
  append_all-Holds c m h [] v = v
  append_all-Holds c m h (e ∷ es) v =
      append_all-Holds c (append m e) (e ∷ h) es (append-Holds c m h e v)

  new-Holds :
      (blank : E) (capacity : ℕ)
      → Holds (capacity_of capacity - 1) (new_mem_store blank capacity) []
  unfolding new_mem_store walk
  new-Holds blank capacity =
      let some_room : capacity_of capacity ≡ suc (capacity_of capacity - 1) = ground arith in
      record {
        cap_is = some_room;
        buf_length = length-replicate (capacity_of capacity) blank ∙ some_room;
        head_below = omega arith;
        count_is = refl;
        walk_is = refl;
      }

  list-Holds :
      (c limit : ℕ) (m : MemStore E) (h : List E)
      → Holds c m h
      → list m limit ≡ some (if limit == 0 then take (suc c) h else take limit (take (suc c) h))
  unfolding list
  list-Holds c limit m h v = elim (dec_lt limit m.count) [
    | yes less ↦ ground (
      arith,
      v.walk_is,
      walk-take m.buf (suc c) (prev (suc c) m.head) limit m.count (take (suc c) h) (omega arith)
          v.walk_is,
    )
    | no more ↦
        ground (arith, v.walk_is, take-all limit (take (suc c) h) (omega (arith, v.count_is)))
  ]

  -- What `List` shows after any number of calls have ended: the newest entries first, as many as the
  -- capacity (200 where none is given) and, if it is positive, the limit allow, with no index ever
  -- out of range. The blank entries of the fresh buffer never show.
  pub list-append_all :
      (blank : E) (capacity limit : ℕ) (es : List E)
      → list (append_all (new_mem_store blank capacity) es) limit
        ≡ some (
            let newest = take (capacity_of capacity) (reverse es) in
            if limit == 0 then newest else take limit newest)
  list-append_all blank capacity limit es =
      let v =
        append_all-Holds (capacity_of capacity - 1) (new_mem_store blank capacity) [] es
          (new-Holds blank capacity) in
      let some_room : suc (capacity_of capacity - 1) ≡ capacity_of capacity = ground arith in
      rw some_room at (list-Holds _ limit _ _ v)
