-- ===== src/Interpreter/Langs.antt =====
-- cmd/interpreter/langs.go and voices.go: the languages on offer, which transcriber can hear each of
-- them, and the voice that a person is heard in.
pub mod Providers
use example_applications.Base.{
  String, ◌==◌, string_eq, Bool, true, false, not, ◌&&◌, ◌||◌, Option, none, some, List, [], ◌∷◌,
  Table, lookup, if◌then◌else◌,
}
use mathlib.Core.Option

-- `language`: an empty code is a language that the service does not know.
pub record Language : Type 0 where
  pub code : String
  pub label : String
  pub flux : String
  pub speechmatics : String
  pub deepl_from : String
  pub deepl_to : String

abbrev language : String → String → String → String → String → String → Language
language code label flux speechmatics deepl_from deepl_to = record {
  code = code;
  label = label;
  flux = flux;
  speechmatics = speechmatics;
  deepl_from = deepl_from;
  deepl_to = deepl_to;
}

abbrev pub languages : List Language
languages =
    language "en" "English" "en" "en" "EN" "EN-GB"
    ∷ language "es" "Spanish" "es" "es" "ES" "ES"
    ∷ language "fr" "French" "fr" "fr" "FR" "FR"
    ∷ language "de" "German" "de" "de" "DE" "DE"
    ∷ language "it" "Italian" "it" "it" "IT" "IT"
    ∷ language "pt" "Portuguese" "pt" "pt" "PT" "PT-PT"
    ∷ language "nl" "Dutch" "nl" "nl" "NL" "NL"
    ∷ language "hi" "Hindi" "hi" "hi" "HI" "HI"
    ∷ language "ru" "Russian" "ru" "ru" "RU" "RU"
    ∷ language "ja" "Japanese" "ja" "ja" "JA" "JA"
    ∷ language "pl" "Polish" "" "pl" "PL" "PL"
    ∷ language "uk" "Ukrainian" "" "uk" "UK" "UK"
    ∷ language "tr" "Turkish" "" "tr" "TR" "TR"
    ∷ language "ko" "Korean" "" "ko" "KO" "KO"
    ∷ language "zh" "Chinese (Mandarin)" "" "cmn" "ZH" "ZH"
    ∷ []

abbrev pub default_lang : String
default_lang = "en"

-- langByCode: in Go's map the last entry of a code is in force, and each code stands once.
unfoldable pub find_lang : String → List Language → Option Language
find_lang code [] = none
find_lang code (l ∷ ls) = if l.code == code then some l else find_lang code ls

unfoldable pub lang_by_code : String → Option Language
unfolding find_lang
lang_by_code code = find_lang code languages

-- lookupLang; `none` is a default language that is not in the table.
unfoldable pub lookup_lang : String → Option Language
unfolding lang_by_code
lookup_lang code = elim (lang_by_code code) [ some l ↦ some l | none ↦ lang_by_code default_lang ]

-- sttCode
unfoldable pub stt_code : String → Language → String × Bool
stt_code provider l =
    if provider == "deepgram_flux"
    then (l.flux, not (l.flux == ""))
    else (l.speechmatics, not (l.speechmatics == ""))

-- What is read of `config`.
pub record Config : Type 0 where
  pub stt_provider : String
  pub stt_fallback : String
  pub stt_keys : Table String
  pub tts_voices : Table String

abbrev pub stt_key : Config → String → String
stt_key c provider = Option.get_or (lookup provider c.stt_keys) ""

-- The loop of providerForLang.
unfoldable pub first_provider : Config → Language → List String → String × Bool
unfolding stt_code
first_provider c l [] = ("", false)
first_provider c l (p ∷ ps) =
    let rest = first_provider c l ps in
    if p == "" || stt_key c p == "" then rest else if (stt_code p l).1 then (p, true) else rest

unfoldable pub provider_for_lang : Config → String → String × Bool
unfolding first_provider
provider_for_lang c code = elim (lang_by_code code) [
  | none ↦ ("", false)
  | some l ↦ first_provider c l (c.stt_provider ∷ c.stt_fallback ∷ [])
]

-- langSupported
unfoldable pub lang_supported : Config → String → Bool
unfolding provider_for_lang
lang_supported c code = (provider_for_lang c code).1

-- offeredLanguages, as a loop over the languages.
unfoldable pub offered : Config → List Language → List Language
unfolding provider_for_lang
offered c [] = []
offered c (l ∷ ls) =
    let rest = offered c ls in if (provider_for_lang c l.code).1 then l ∷ rest else rest

unfoldable pub offered_languages : Config → List Language
unfolding offered
offered_languages c = offered c languages

-- knownGender
abbrev pub default_gender : String
default_gender = "unspecified"

unfoldable pub known_gender : String → Bool
known_gender code = code == "unspecified" || (code == "female" || code == "male")

-- voiceFor
unfoldable pub voice_for : Config → String → String
voice_for c gender =
    let chosen = Option.get_or (lookup gender c.tts_voices) "" in
    if not (chosen == "") then chosen else Option.get_or (lookup default_gender c.tts_voices) ""

-- What `join` settles on for a language and a gender that a browser sends.
unfoldable pub settle_lang : Config → String → String
unfolding lang_supported
settle_lang c lang = if lang_supported c lang then lang else default_lang

unfoldable pub settle_gender : String → String
unfolding known_gender
settle_gender gender = if known_gender gender then gender else default_gender
