-- ===== src/Pbx/Dialplan/Speech.antt =====
-- cmd/pbx/dialplan_speech.go: what was said, against the options of a gather node. Trimming, lower
-- case and search are Go's, and are arguments; a transcript is split at what is no ASCII letter or
-- digit, and distances are between the code points of two texts.
use Prim.Native.Char.{Char, code}
use Prim.Native.String.{String, len}
use example_applications.Base.{
  ℕ, zero, suc, ◌+◌, ◌*◌, ◌/◌, concat, ◌==◌, string_eq, nat_eq, Bool, true, false, not, ◌&&◌, ◌||◌,
  Option, none, some, List, [], ◌∷◌, Table, lookup, ltb, leb, length, get_elem?, if◌then◌else◌,
}
pub mod Distance
pub mod Options

-- strings.ToLower, strings.TrimSpace and strings.Contains.
pub record Texts : Type 0 where
  pub to_lower : String → String
  pub trim_space : String → String
  pub has : String → String → Bool

-- The code points of a text.
abbrev pub codes : String → List ℕ
codes String.[] = []
codes (String.◌∷◌ c s) = code c ∷ codes s

abbrev pub normal : Texts → String → String
normal x s = x.to_lower (x.trim_space s)

-- fuzzyTolerance
unfoldable pub fuzzy_tolerance : String → ℕ
fuzzy_tolerance word =
    let n = len word in
    let t = n * 2 / 5 in if leb n 3 then 0 else if ltb t 1 then 1 else if ltb 3 t then 3 else t

is_word_rune : ℕ → Bool
is_word_rune r = leb b'a' r && leb r b'z' || leb b'0' r && leb r b'9'

abbrev flush : String → List String → List String
flush word rest = if word == "" then rest else word ∷ rest

fields_from : String → String → List String
unfolding is_word_rune
fields_from word String.[] = flush word []
fields_from word (String.◌∷◌ c s) = elim (is_word_rune (code c)) [
  | true ↦ fields_from (concat word (String.◌∷◌ c String.[])) s
  | false ↦ flush word (fields_from "" s)
]

-- tokenizeWords
unfoldable pub tokenize_words : String → List String
unfolding fields_from
tokenize_words s = fields_from "" s

-- numberWords
abbrev number_table : Table String
number_table =
    ("zero", "0")
    ∷ ("oh", "0")
    ∷ ("one", "1")
    ∷ ("two", "2")
    ∷ ("to", "2")
    ∷ ("too", "2")
    ∷ ("three", "3")
    ∷ ("four", "4")
    ∷ ("for", "4")
    ∷ ("five", "5")
    ∷ ("six", "6")
    ∷ ("seven", "7")
    ∷ ("eight", "8")
    ∷ ("nine", "9")
    ∷ []

-- A word that is not in the map reads as the empty text.
unfoldable pub number_words : String → String
unfolding lookup
number_words w = elim (lookup w number_table) [ none ↦ "" | some d ↦ d ]

unfoldable pub min3 : ℕ → ℕ → ℕ → ℕ
min3 a b c = let m = if ltb b a then b else a in if ltb c m then c else m

abbrev pub cost : ℕ → ℕ → ℕ
cost x y = if x == y then 0 else 1

-- The first row, 0 to the length.
abbrev pub count_from : ℕ → ℕ → List ℕ
count_from i zero = []
count_from i (suc n) = i ∷ count_from (suc i) n

-- The cells of a row after the first, from the cell on the left and the row above.
unfoldable pub next_cells : ℕ → ℕ → List ℕ → List ℕ → List ℕ
unfolding min3
next_cells x left prev [] = []
next_cells x left [] (y ∷ rb) = []
next_cells x left (p ∷ []) (y ∷ rb) = []
next_cells x left (p ∷ q ∷ prev) (y ∷ rb) =
    let cell = min3 (left + 1) (q + 1) (p + cost x y) in cell ∷ next_cells x cell (q ∷ prev) rb

-- The rows that follow row `i`.
unfoldable pub last_row : ℕ → List ℕ → List ℕ → List ℕ → List ℕ
unfolding next_cells
last_row i prev [] rb = prev
last_row i prev (x ∷ ra) rb = last_row (suc i) (suc i ∷ next_cells x (suc i) prev rb) ra rb

-- `levenshtein`
unfoldable pub levenshtein : List ℕ → List ℕ → ℕ
unfolding last_row
levenshtein ra rb =
    if length ra == 0
    then length rb
    else if length rb == 0
    then length ra
    else elim (get_elem? (last_row 0 (count_from 0 (suc (length rb))) ra rb) (length rb)) [
      | none ↦ 0
      | some d ↦ d
    ]

-- The first step of matchSpeech: an option that the whole transcript contains.
unfoldable pub phrase_in : Texts → String → List String → Option String
phrase_in x t [] = none
phrase_in x t (opt ∷ opts) =
    if not (normal x opt == "") && x.has t (normal x opt) then some opt else phrase_in x t opts

abbrev says : List String → String → Bool
says [] o = false
says (w ∷ ws) o = w == o || number_words w == o || says ws o

-- The second step: an option that is a word of the transcript, or the digit of one.
unfoldable pub word_in : Texts → List String → List String → Option String
unfolding number_words
word_in x words [] = none
word_in x words (opt ∷ opts) = if says words (normal x opt) then some opt else word_in x words opts

-- The closest of the options so far, and its distance.
abbrev pub Best : Type 0
Best = String × ℕ

unfoldable pub closer : String → String → List String → Best → Best
unfolding levenshtein fuzzy_tolerance
closer opt o [] best = best
closer opt o (w ∷ ws) best =
    let d = levenshtein (codes w) (codes o) in
    closer opt o ws (if leb d (fuzzy_tolerance o) && ltb d best.1 then (opt, d) else best)

-- The third step.
unfoldable pub closest : Texts → List String → List String → Best → Best
unfolding closer
closest x words [] best = best
closest x words (opt ∷ opts) best =
    let o = normal x opt in closest x words opts (if o == "" then best else closer opt o words best)

abbrev far : Best
far = ("", 1073741824)

-- matchSpeech
unfoldable pub match_speech : Texts → String → List String → Option String
unfolding tokenize_words phrase_in word_in closest
match_speech x transcript opts =
    let t = normal x transcript in
    let words = tokenize_words t in
    let best = (closest x words opts far).0 in
    if t == "" || length opts == 0 then none else elim (phrase_in x t opts) [
      | some opt ↦ some opt
      | none ↦ elim (word_in x words opts) [
        | some opt ↦ some opt
        | none ↦ if best == "" then none else some best
      ]
    ]
