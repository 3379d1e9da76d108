-- ===== src/Interpreter/Langs/Providers.antt =====
-- Whether a person who joins can be heard.
use example_applications.Base.{
  String, ◌==◌, string_eq, ◌≡◌, ◌≢◌, ◌⊎◌, refl, ◌∙◌, inl, inr, true, ◌||◌, some, List, [], ◌∷◌,
  arith, eq_iff, Bool-cases, Option-cases,
}
use example_applications.Interpreter.Langs.{
  Language, Config, stt_key, lang_by_code, stt_code, first_provider, provider_for_lang,
  lang_supported, default_lang, settle_lang,
}

-- The transcriber has a code for the language.
abbrev pub Knows : String → Language → Type 0
Knows p l =
    ((p ≡ "deepgram_flux") × (l.flux ≢ "")) ⊎ ((p ≢ "deepgram_flux") × (l.speechmatics ≢ ""))

-- It is one of the two that are configured, has a name and a key, and knows the language.
abbrev pub Hears : Config → Language → String → Type 0
Hears c l p =
    ((p ≡ c.stt_provider) ⊎ (p ≡ c.stt_fallback)) × (p ≢ "") × (stt_key c p ≢ "") × Knows p l

stt_code-Knows : (p : String) (l : Language) → (stt_code p l).1 ≡ true → Knows p l
unfolding stt_code
stt_code-Knows p l h = elim (Bool-cases (p == "deepgram_flux")) [
  | inl e ↦ inl ((eq_iff p "deepgram_flux").0 e, ground (arith, eq_iff l.flux ""))
  | inr e ↦ inr (ground (arith, eq_iff p "deepgram_flux"), ground (arith, eq_iff l.speechmatics ""))
]

-- A transcriber that the loop picks, and what it passed by.
abbrev Picks : Config → Language → String → List String → Type 0
Picks c l p ps =
    ((first_provider c l (p ∷ ps) ≡ (p, true)) × (p ≢ "") × (stt_key c p ≢ "") × Knows p l)
    ⊎ (first_provider c l (p ∷ ps) ≡ first_provider c l ps)

first_provider-Picks : (c : Config) (l : Language) (p : String) (ps : List String) → Picks c l p ps
unfolding first_provider
first_provider-Picks c l p ps = elim (Bool-cases (p == "" || stt_key c p == "")) [
  | inl e ↦ inr (rw e refl)
  | inr e ↦ elim (Bool-cases (stt_code p l).1) [
    | inl k ↦ inl (
      rw (e, k) refl,
      ground (arith, eq_iff p ""),
      ground (arith, eq_iff (stt_key c p) ""),
      stt_code-Knows p l k,
    )
    | inr k ↦ inr (rw (e, k) refl)
  ]
]

supported_heard :
    (c : Config) (code : String)
    → lang_supported c code ≡ true
    → (l : Language) × (p : String) × (lang_by_code code ≡ some l)
      × (provider_for_lang c code ≡ (p, true))
      × Hears c l p
unfolding lang_supported provider_for_lang
supported_heard c code h = elim (Option-cases (lang_by_code code)) [
  | inl e ↦ absurd (ground arith)
  | inr (l, e) ↦ elim (first_provider-Picks c l c.stt_provider (c.stt_fallback ∷ [])) [
    | inl (q, n, k, kn) ↦ (l, c.stt_provider, e, rw (e, provider_for_lang) q, (inl refl, n, k, kn))
    | inr q ↦ elim (first_provider-Picks c l c.stt_fallback []) [
      | inl (q', n, k, kn) ↦
          (l, c.stt_fallback, e, rw (e, provider_for_lang) (q ∙ q'), (inr refl, n, k, kn))
      | inr q' ↦ absurd (missing l e (q ∙ q'))
    ]
  ]
]
  where
    missing :
        (l : Language)
        → lang_by_code code ≡ some l
        → first_provider c l (c.stt_provider ∷ c.stt_fallback ∷ []) ≡ first_provider c l []
        → ⊥
    missing l e q = ground arith

-- Everyone who joins can be heard. If some transcriber can hear the default language, then whatever
-- language a browser sends, the one that `join` settles on is in the table, and providerForLang
-- reports a transcriber for it: one of the two that are configured, with a name, a key and a code for
-- the language.
pub settle_lang-Hears :
    (c : Config) (lang : String)
    → lang_supported c default_lang ≡ true
    → (l : Language) × (p : String) × (lang_by_code (settle_lang c lang) ≡ some l)
      × (provider_for_lang c (settle_lang c lang) ≡ (p, true))
      × Hears c l p
unfolding settle_lang
settle_lang-Hears c lang fallback = elim (Bool-cases (lang_supported c lang)) [
  | inl e ↦ rw e (supported_heard c lang e)
  | inr e ↦ rw e (supported_heard c default_lang fallback)
]
