-- ===== src/Pbx/MenuExamples.antt =====
-- The theorems of menus and speech at concrete data.
use example_applications.Base.{
  ℕ, ◌≤◌, String, string_eq, ◌≡◌, ◌⊎◌, refl, true, false, none, some, List, [], ◌∷◌, arith, eq_iff,
  reverse,
}
use example_applications.Base.Int.{pos}
use example_applications.Pbx.Dialplan.Graph.{Graph, gather}
use example_applications.Pbx.Dialplan.Exec
use example_applications.Pbx.Dialplan.Exec.{Env}
use example_applications.Pbx.Dialplan.Speech.{Texts, levenshtein}
use example_applications.Pbx.Dialplan.Speech.Distance.{
  Edit, keep, delete, insert, apply, changes, Reached, levenshtein-least,
}
use example_applications.Pbx.Dialplan.Speech.Options.{Any, AreNamed}
use example_applications.Pbx.Dialplan.Gather.{
  run, connects, presses, on_stt, after, gather_submit, gather_options,
}
use example_applications.Pbx.Dialplan.Gather.Entries.{IsUnfinished, entry_stays_short}
use example_applications.Pbx.Dialplan.Gather.Heard.{IsWired, on_stt-IsWired}

-- A menu that asks for three digits, and whose key 1 leads to a second one.
abbrev two_menus : Graph
two_menus = record {
  nodes =
      record { id = "m"; type = gather; params = ("text", "hello") ∷ ("num_digits", "3") ∷ [] }
      ∷ record { id = "n"; type = gather; params = ("text", "again") ∷ ("num_digits", "3") ∷ [] }
      ∷ [];
  edges = record { from = "m"; port = "1"; to = "n" } ∷ [];
}

abbrev menu_env : Env
menu_env = record {
  graph = two_menus;
  atoi = λ s. some (pos 3);
  has_prefix = λ s t. false;
  regex_match = λ s t. none;
  split_csv = λ s. [];
  extension_targets = λ s. [];
  trunk_by_id = λ s. none;
  outbound_trunk = none;
  answer_leg = true;
  play_start = λ s. none;
  tts_start = λ s. some s;
  stt_start = false;
}

-- A call that was answered for the menu.
abbrev answering_caller : Exec.Exec
answering_caller = record {
  leg_id = "leg-1";
  trunk_id = "trunk-1";
  tenant_id = "acme";
  did = "100";
  from = "200";
  registered = true;
  answered = false;
  resume_node = "m";
  pending_id = "";
  next_node = "";
  gathering = false;
  gather_node = "";
  gather_input = "";
  gather_stt = false;
  gather_digits = "";
  gather_prompt_id = "";
  gather_num = pos 0;
  gather_gen = 0;
}

abbrev in_menu : Exec.Exec
in_menu = record answering_caller {
  answered = true;
  resume_node = "";
  gathering = true;
  gather_node = "m";
  gather_input = "dtmf";
  gather_prompt_id = "hello";
  gather_num = pos 3;
  gather_gen = 1;
}

abbrev two_keys : Exec.Exec
two_keys = record in_menu { gather_digits = "42"; gather_prompt_id = "" }

two_keys_pressed :
    run menu_env 60 answering_caller (connects ∷ presses "4" ∷ presses "2" ∷ []) ≡ some two_keys
unfolding run
two_keys_pressed = refl

entry_stays_short_example : IsUnfinished two_menus two_keys
entry_stays_short_example =
    entry_stays_short menu_env 60 answering_caller two_keys
      (connects ∷ presses "4" ∷ presses "2" ∷ []) refl two_keys_pressed refl

abbrev in_second_menu : Exec.Exec
in_second_menu = record in_menu { gather_node = "n"; gather_prompt_id = "again"; gather_gen = 2 }

abbrev plain : Texts
plain = record { to_lower = λ s. s; trim_space = λ s. s; has = λ s t. false }

abbrev listening : Exec.Exec
listening = record in_menu { gather_input = "both" }

one_named : AreNamed plain (gather_options two_menus "m")
unfolding gather_options
one_named = ((λ e. ground (arith, eq_iff "1" "")), tt)

on_stt-IsWired_example :
    (on_stt menu_env plain 60 listening "one" true ≡ some (listening, [], none, true))
    ⊎ (on_stt menu_env plain 60 listening "one" true ≡ some (listening, [], none, false))
    ⊎ ((option : String) × Any (IsWired plain "m" "one" option) two_menus.edges
        × (on_stt menu_env plain 60 listening "one" true
            ≡ gather_submit menu_env 60 listening option []))
on_stt-IsWired_example = on_stt-IsWired menu_env plain 60 listening "one" true one_named

-- The word is taken for the key 1.
one_heard : after (on_stt menu_env plain 60 listening "one" true) ≡ some in_second_menu
unfolding on_stt
one_heard = refl

abbrev sails : List ℕ
sails = b's' ∷ b'a' ∷ b'i' ∷ b'l' ∷ b's' ∷ []

abbrev sales : List ℕ
sales = b's' ∷ b'a' ∷ b'l' ∷ b'e' ∷ b's' ∷ []

-- From the end: keep s, insert e, keep l, delete i, keep a and s.
abbrev sailing : List Edit
sailing = keep ∷ insert b'e' ∷ keep ∷ delete ∷ keep ∷ keep ∷ []

levenshtein-least_example :
    (levenshtein sails sales ≤ changes sailing)
    × Reached (reverse sails) (reverse sales) (levenshtein sails sales)
unfolding apply
levenshtein-least_example = levenshtein-least sails sales sailing refl

sails_for_sales : levenshtein sails sales ≡ 2
unfolding levenshtein
sails_for_sales = refl
