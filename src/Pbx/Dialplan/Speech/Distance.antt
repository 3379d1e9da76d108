-- ===== src/Pbx/Dialplan/Speech/Distance.antt =====
-- The two-row loop of `levenshtein` against the recursion on the last characters, and that against
-- scripts of changes that turn one text into the other.
use mathlib.Core.List.{reverse, reverse_aux}
use example_applications.Base.{
  ℕ, suc, ◌+◌, ◌≤◌, ◌≡◌, refl, sym, ap, ◌∙◌, ◌⊎◌, inl, inr, Option, none, some, List, [], ◌∷◌, ◌==◌,
  arith, nat_eq, length, get_elem?, ltb, Bool-cases,
}
use example_applications.Pbx.Dialplan.Speech.{
  min3, cost, count_from, next_cells, last_row, levenshtein,
}

-- The least number of insertions, deletions and replacements between two texts, which are given
-- from their ends.
pub edits : List ℕ → List ℕ → ℕ
edits [] rb = length rb
edits (x ∷ ra) [] = suc (length ra)
edits (x ∷ ra) (y ∷ rb) =
    min3 (edits (x ∷ ra) rb + 1) (edits ra (y ∷ rb) + 1) (edits ra rb + cost x y)

-- The distances from `ra` to the prefixes of `rb` that go on with the given rest.
cells : List ℕ → List ℕ → List ℕ → List ℕ
cells ra rb [] = []
cells ra rb (y ∷ rest) = edits ra (y ∷ rb) ∷ cells ra (y ∷ rb) rest

first_cells : (rb rest : List ℕ) → count_from (suc (length rb)) (length rest) ≡ cells [] rb rest
unfolding edits cells
first_cells rb [] = refl
first_cells rb (y ∷ rest) = ap (◌∷◌ (suc (length rb))) (first_cells (y ∷ rb) rest)

next_cells-cells :
    (x : ℕ) (ra rb rest : List ℕ)
    → next_cells x (edits (x ∷ ra) rb) (edits ra rb ∷ cells ra rb rest) rest
      ≡ cells (x ∷ ra) rb rest
unfolding next_cells edits cells
next_cells-cells x ra rb [] = refl
next_cells-cells x ra rb (y ∷ rest) =
    ap (◌∷◌ (edits (x ∷ ra) (y ∷ rb))) (next_cells-cells x ra (y ∷ rb) rest)

edits-nil : (ra : List ℕ) → edits ra [] ≡ length ra
unfolding edits
edits-nil [] = refl
edits-nil (x ∷ ra) = refl

last_row-cells :
    (ra next rb : List ℕ)
    → last_row (length ra) (length ra ∷ cells ra [] rb) next rb
      ≡ length (reverse_aux next ra) ∷ cells (reverse_aux next ra) [] rb
unfolding last_row edits
last_row-cells ra [] rb = refl
last_row-cells ra (x ∷ next) rb =
    let row : next_cells x (suc (length ra)) (length ra ∷ cells ra [] rb) rb
        ≡ cells (x ∷ ra) [] rb =
      rw (edits-nil ra) at (next_cells-cells x ra [] rb) in
    rw row (last_row-cells (x ∷ ra) next rb)

last_cell :
    (ra rb rest : List ℕ)
    → get_elem? (edits ra rb ∷ cells ra rb rest) (length rest)
      ≡ some (edits ra (reverse_aux rest rb))
unfolding cells
last_cell ra rb [] = refl
last_cell ra rb (y ∷ rest) = last_cell ra (y ∷ rb) rest

length-reverse_aux : (xs ys : List ℕ) → length (reverse_aux xs ys) ≡ length xs + length ys
length-reverse_aux [] ys = omega arith
length-reverse_aux (x ∷ xs) ys = omega (arith, length-reverse_aux xs (x ∷ ys))

last_row-edits :
    (ra rb : List ℕ)
    → last_row 0 (count_from 0 (suc (length rb))) ra rb
      ≡ edits (reverse ra) [] ∷ cells (reverse ra) [] rb
last_row-edits ra rb =
    ap (λ row. last_row 0 (0 ∷ row) ra rb) (first_cells [] rb)
    ∙ last_row-cells [] ra rb
    ∙ ap (λ n. n ∷ cells (reverse ra) [] rb) (sym (edits-nil (reverse ra)))

-- The loop over two rows computes the recursion from the ends of the texts.
levenshtein-edits : (ra rb : List ℕ) → levenshtein ra rb ≡ edits (reverse ra) (reverse rb)
unfolding levenshtein edits
levenshtein-edits [] rb = omega (arith, length-reverse_aux rb [])
levenshtein-edits (x ∷ ra) [] =
    ground (arith, edits-nil (reverse (x ∷ ra)), length-reverse_aux (x ∷ ra) [])
levenshtein-edits (x ∷ ra) (y ∷ rb) =
    let cell =
      ap (λ row. get_elem? row (suc (length rb))) (last_row-edits (x ∷ ra) (y ∷ rb))
      ∙ last_cell (reverse (x ∷ ra)) [] (y ∷ rb) in
    ground (arith, cell)

-- What is done with one character on the way from a text to another.
pub data Edit : Type 0 where
  keep delete : Edit
  replace insert : ℕ → Edit

abbrev cons_to : ℕ → Option (List ℕ) → Option (List ℕ)
cons_to y none = none
cons_to y (some ys) = some (y ∷ ys)

-- The text that a script makes of a text; the script has to use it up.
unfoldable pub apply : List Edit → List ℕ → Option (List ℕ)
apply [] [] = some []
apply [] (x ∷ xs) = none
apply (keep ∷ es) [] = none
apply (keep ∷ es) (x ∷ xs) = cons_to x (apply es xs)
apply (delete ∷ es) [] = none
apply (delete ∷ es) (x ∷ xs) = apply es xs
apply (replace y ∷ es) [] = none
apply (replace y ∷ es) (x ∷ xs) = cons_to y (apply es xs)
apply (insert y ∷ es) xs = cons_to y (apply es xs)

-- How many characters a script changes.
unfoldable pub changes : List Edit → ℕ
changes [] = 0
changes (keep ∷ es) = changes es
changes (delete ∷ es) = changes es + 1
changes (replace y ∷ es) = changes es + 1
changes (insert y ∷ es) = changes es + 1

cons_to-some :
    (y : ℕ) (o : Option (List ℕ)) (ys : List ℕ)
    → cons_to y o ≡ some ys
    → (zs : List ℕ) × (o ≡ some zs) × (y ∷ zs ≡ ys)
cons_to-some y none ys h = absurd (cc)
cons_to-some y (some zs) ys h = (zs, refl, cc)

edits-insert : (xs : List ℕ) (y : ℕ) (ys : List ℕ) → edits xs (y ∷ ys) ≤ edits xs ys + 1
unfolding edits min3
edits-insert [] y ys = omega arith
edits-insert (x ∷ xs) y ys = ground arith

edits-delete : (x : ℕ) (xs ys : List ℕ) → edits (x ∷ xs) ys ≤ edits xs ys + 1
unfolding edits min3
edits-delete x xs [] = omega (arith, ap (λ (n : ℕ). n) (edits-nil xs))
edits-delete x xs (y ∷ ys) = ground arith

edits-keep : (x : ℕ) (xs ys : List ℕ) → edits (x ∷ xs) (x ∷ ys) ≤ edits xs ys
unfolding edits min3
edits-keep x xs ys = ground arith

edits-replace :
    (x : ℕ) (xs : List ℕ) (y : ℕ) (ys : List ℕ) → edits (x ∷ xs) (y ∷ ys) ≤ edits xs ys + 1
unfolding edits min3
edits-replace x xs y ys = ground arith

-- No script changes fewer characters.
edits-le-changes :
    (es : List Edit) (xs ys : List ℕ) → apply es xs ≡ some ys → edits xs ys ≤ changes es
unfolding apply changes
edits-le-changes [] [] [] h = unfold edits in omega arith
edits-le-changes [] [] (y ∷ ys) h = absurd (cc)
edits-le-changes [] (x ∷ xs) ys h = absurd (cc)
edits-le-changes (keep ∷ es) [] ys h = absurd (cc)
edits-le-changes (keep ∷ es) (x ∷ xs) ys h =
    let (zs, p, q) = cons_to-some x (apply es xs) ys h in
    rw (← q) (omega (arith, edits-keep x xs zs, edits-le-changes es xs zs p))
edits-le-changes (delete ∷ es) [] ys h = absurd (cc)
edits-le-changes (delete ∷ es) (x ∷ xs) ys h =
    omega (arith, edits-delete x xs ys, edits-le-changes es xs ys h)
edits-le-changes (replace y ∷ es) [] ys h = absurd (cc)
edits-le-changes (replace y ∷ es) (x ∷ xs) ys h =
    let (zs, p, q) = cons_to-some y (apply es xs) ys h in
    rw (← q) (omega (arith, edits-replace x xs y zs, edits-le-changes es xs zs p))
edits-le-changes (insert y ∷ es) xs ys h =
    let (zs, p, q) = cons_to-some y (apply es xs) ys h in
    rw (← q) (omega (arith, edits-insert xs y zs, edits-le-changes es xs zs p))

min3-cases : (a b c : ℕ) → (min3 a b c ≡ a) ⊎ (min3 a b c ≡ b) ⊎ (min3 a b c ≡ c)
unfolding min3
min3-cases a b c = elim (Bool-cases (ltb b a)) [
  | inl p ↦ elim (Bool-cases (ltb c b)) [
    | inl q ↦ inr (inr (rw (p, q) refl))
    | inr q ↦ inr (inl (rw (p, q) refl))
  ]
  | inr p ↦ elim (Bool-cases (ltb c a)) [
    | inl q ↦ inr (inr (rw (p, q) refl))
    | inr q ↦ inl (rw (p, q) refl)
  ]
]

-- A script that makes the second text of the first with as many changes.
abbrev pub Reached : List ℕ → List ℕ → ℕ → Type 0
Reached xs ys n = (es : List Edit) × (apply es xs ≡ some ys) × (changes es ≡ n)

edits-Reached : (xs ys : List ℕ) → Reached xs ys (edits xs ys)
unfolding apply changes edits
edits-Reached [] [] = ([], refl, refl)
edits-Reached [] (y ∷ ys) =
    let (es, p, q) = edits-Reached [] ys in (insert y ∷ es, rw p refl, omega arith)
edits-Reached (x ∷ xs) [] =
    let (es, p, q) = edits-Reached xs [] in (delete ∷ es, p, omega (arith, edits-nil xs))
edits-Reached (x ∷ xs) (y ∷ ys) =
    let (es1, p1, q1) = edits-Reached (x ∷ xs) ys in
    let (es2, p2, q2) = edits-Reached xs (y ∷ ys) in
    let (es3, p3, q3) = edits-Reached xs ys in
    elim (min3-cases (edits (x ∷ xs) ys + 1) (edits xs (y ∷ ys) + 1) (edits xs ys + cost x y)) [
      | inl m ↦ (insert y ∷ es1, rw p1 refl, omega arith)
      | inr (inl m) ↦ (delete ∷ es2, p2, omega arith)
      | inr (inr m) ↦ elim (Bool-cases (x == y)) [
        | inl same ↦ (keep ∷ es3, ground arith, ground arith)
        | inr other ↦ (replace y ∷ es3, rw p3 refl, ground arith)
      ]
    ]

-- The loop over two rows computes the edit distance. A script goes over a text from its end and keeps,
-- deletes or replaces each character, and inserts others. Whatever script turns one text into the
-- other, the distance is at most the number of characters that it changes; and some script changes
-- exactly that many.
pub levenshtein-least :
    (ra rb : List ℕ) (es : List Edit)
    → apply es (reverse ra) ≡ some (reverse rb)
    → (levenshtein ra rb ≤ changes es) × Reached (reverse ra) (reverse rb) (levenshtein ra rb)
levenshtein-least ra rb es h =
    rw (levenshtein-edits ra rb)
      (edits-le-changes es (reverse ra) (reverse rb) h, edits-Reached (reverse ra) (reverse rb))
