-- ===== src/Pbx/Dialplan/Speech/Options.antt =====
-- Which options a transcript can be taken for.
use mathlib.Core.Path.{subst}
use mathlib.Core.Bool.{false≢true}
use example_applications.Base.{
  ◌≤◌, String, ◌==◌, string_eq, ◌≡◌, ◌≢◌, refl, ap, ◌⊎◌, inl, inr, true, not, ◌&&◌, none, some,
  List, [], ◌∷◌, All, arith, leb, ltb, Bool-cases, Option-cases, eq_iff, sym, ◌∙◌,
}
use example_applications.Pbx.Dialplan.Speech.{
  Texts, codes, normal, fuzzy_tolerance, number_words, tokenize_words, levenshtein, phrase_in,
  word_in, Best, closer, closest, match_speech, says, far,
}

-- `P` holds of some element.
abbrev pub Any {ℓ} : {A : Type ℓ} → (A → Type 0) → List A → Type 0
Any P [] = ⊥
Any P (x ∷ xs) = P x ⊎ Any P xs

-- One of the words is the option, or is a number word for its digit.
abbrev pub Says : List String → String → Type 0
Says words o = Any (λ w. (w ≡ o) ⊎ ((number_words w ≢ "") × (number_words w ≡ o))) words

-- One of the words is within the tolerance of the option.
abbrev pub IsClose : List String → String → Type 0
IsClose words o = Any (λ w. levenshtein (codes w) (codes o) ≤ fuzzy_tolerance o) words

-- The transcript contains the option, or a word of it says the option or comes close to it.
abbrev pub Fits : Texts → String → String → Type 0
Fits x t o =
    ((o ≢ "") × (x.has t o ≡ true))
    ⊎ Says (tokenize_words t) o
    ⊎ ((o ≢ "") × IsClose (tokenize_words t) o)

says-Says : (words : List String) (o : String) → o ≢ "" → says words o ≡ true → Says words o
says-Says [] o named h = cc
says-Says (w ∷ ws) o named h = elim (Bool-cases (w == o)) [
  | inl p ↦ inl (inl ((eq_iff w o).0 p))
  | inr p ↦ elim (Bool-cases (number_words w == o)) [
    | inl q ↦
        let digit = (eq_iff (number_words w) o).0 q in
        inl (inr ((λ e. named (sym digit ∙ e)), digit))
    | inr q ↦ inr (says-Says ws o named (rw (p, q) at h))
  ]
]

closer_cases :
    (opt o : String) (words : List String) (best : Best)
    → (closer opt o words best ≡ best) ⊎ (((closer opt o words best).0 ≡ opt) × IsClose words o)
unfolding closer
closer_cases opt o [] best = inl refl
closer_cases opt o (w ∷ ws) best =
    let d = levenshtein (codes w) (codes o) in
    elim (Bool-cases (leb d (fuzzy_tolerance o) && ltb d best.1)) [
      | inl p ↦ elim (closer_cases opt o ws (opt, d)) [
        | inl q ↦ inr (rw (p, closer) (ap (λ (b : Best). b.0) q), inl (ground arith))
        | inr (q, close) ↦ inr (rw (p, closer) q, inr close)
      ]
      | inr p ↦ elim (closer_cases opt o ws best) [
        | inl q ↦ inl (rw (p, closer) q)
        | inr (q, close) ↦ inr (rw (p, closer) q, inr close)
      ]
    ]

-- An option that a step of matchSpeech picks.
abbrev IsPick : Texts → String → String → String → Type 0
IsPick x t picked opt = (opt ≡ picked) × Fits x t (normal x opt)

closest_cases :
    (x : Texts) (t : String) (opts : List String) (best : Best)
    → (closest x (tokenize_words t) opts best ≡ best)
      ⊎ Any (IsPick x t (closest x (tokenize_words t) opts best).0) opts
unfolding closest
closest_cases x t [] best = inl refl
closest_cases x t (opt ∷ opts) best =
    let o = normal x opt in
    let words = tokenize_words t in
    elim (Bool-cases (o == "")) [
      | inl blank ↦
          let skip : closest x words (opt ∷ opts) best ≡ closest x words opts best = rw blank in
          elim (closest_cases x t opts best) [
            | inl q ↦ inl (skip ∙ q)
            | inr q ↦ inr (inr (subst (λ b. Any (IsPick x t b.0) opts) (sym skip) q))
          ]
      | inr named ↦
          let step : closest x words (opt ∷ opts) best
              ≡ closest x words opts (closer opt o words best) =
            rw named in
          elim (closest_cases x t opts (closer opt o words best)) [
            | inr q ↦ inr (inr (subst (λ b. Any (IsPick x t b.0) opts) (sym step) q))
            | inl q ↦ elim (closer_cases opt o words best) [
              | inl kept ↦ inl (step ∙ q ∙ kept)
              | inr (taken, close) ↦ inr (
                  inl (
                    sym (ap (λ (b : Best). b.0) (step ∙ q) ∙ taken),
                    inr (inr ((λ e. false≢true (sym named ∙ (eq_iff o "").1 e)), close)),
                  ))
            ]
          ]
    ]

phrase_in-Fits :
    (x : Texts) (t picked : String) (opts : List String)
    → phrase_in x t opts ≡ some picked
    → Any (IsPick x t picked) opts
unfolding phrase_in
phrase_in-Fits x t picked [] h = cc
phrase_in-Fits x t picked (opt ∷ opts) h =
    let o = normal x opt in
    elim (Bool-cases (not (o == "") && x.has t o)) [
      | inl p ↦
          let taken : some opt ≡ some picked = rw p at h in
          inl (cc, inl (ground (arith, eq_iff o ""), ground (arith, eq_iff o "")))
      | inr p ↦ inr (phrase_in-Fits x t picked opts (rw p at h))
    ]

-- No option is blank.
abbrev pub AreNamed : Texts → List String → Type 0
AreNamed x = All (λ opt. normal x opt ≢ "")

word_in-Fits :
    (x : Texts) (t picked : String) (opts : List String)
    → AreNamed x opts
    → word_in x (tokenize_words t) opts ≡ some picked
    → Any (IsPick x t picked) opts
unfolding word_in
word_in-Fits x t picked [] blank h = cc
word_in-Fits x t picked (opt ∷ opts) (named, more) h =
    elim (Bool-cases (says (tokenize_words t) (normal x opt))) [
      | inl p ↦
          let taken : some opt ≡ some picked = rw p at h in
          inl (cc, inr (inl (says-Says _ _ named p)))
      | inr p ↦ inr (word_in-Fits x t picked opts more (rw p at h))
    ]

-- Where no option is blank, what matchSpeech takes a transcript for is one of the options, and it
-- fits: the transcript contains it, or one of its words is the option, stands for its digit, or comes
-- close to it.
pub match_speech-Fits :
    (x : Texts) (said picked : String) (opts : List String)
    → AreNamed x opts
    → match_speech x said opts ≡ some picked
    → Any (λ opt. (opt ≡ picked) × Fits x (normal x said) (normal x opt)) opts
unfolding match_speech
match_speech-Fits x said picked opts named h =
    let t = normal x said in
    let words = tokenize_words t in
    elim (Option-cases (phrase_in x t opts)) [
      | inr (o, p) ↦ phrase_in-Fits x t picked opts (ground arith)
      | inl p ↦ elim (Option-cases (word_in x words opts)) [
        | inr (o, q) ↦ word_in-Fits x t picked opts named (ground arith)
        | inl q ↦ elim (closest_cases x t opts far) [
          | inl r ↦
              let none_close = ap (λ (b : Best). b.0) r in
              absurd (ground (arith, none_close, eq_iff (closest x words opts far).0 ""))
          | inr r ↦ subst (λ o. Any (IsPick x t o) opts) (ground arith) r
        ]
      ]
    ]

-- A blank option takes every transcript whose first word is no number, unless an option stands in it
-- as a phrase: the word has no digit, and no digit reads as the blank text. The option is the first
-- of the list here.
pub blank_option_heard :
    (x : Texts) (said opt w : String) (opts ws : List String)
    → normal x said ≢ ""
    → normal x opt ≡ ""
    → tokenize_words (normal x said) ≡ w ∷ ws
    → number_words w ≡ ""
    → phrase_in x (normal x said) (opt ∷ opts) ≡ none
    → match_speech x said (opt ∷ opts) ≡ some opt
unfolding match_speech word_in
blank_option_heard x said opt w opts ws spoken blank first plain phrase =
    let hit : word_in x (tokenize_words (normal x said)) (opt ∷ opts) ≡ some opt =
      rw (first, blank, word_in) (ground (arith, plain, eq_iff (number_words w) "")) in
    ground (arith, phrase, hit, eq_iff (normal x said) "")
