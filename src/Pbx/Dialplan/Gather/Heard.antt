-- ===== src/Pbx/Dialplan/Gather/Heard.antt =====
-- Where speech leads from a menu.
use example_applications.Base.{
  ℕ, String, ◌==◌, string_eq, ◌≡◌, ◌≢◌, ◌⊎◌, inl, inr, Bool, true, false, not, ◌&&◌, ◌||◌, none,
  some, List, [], ◌∷◌, arith, Bool-cases, Option-cases, eq_iff,
}
use example_applications.Pbx.Dialplan.Graph.{Edge, port_default}
use example_applications.Pbx.Dialplan.Exec
use example_applications.Pbx.Dialplan.Exec.{Env}
use example_applications.Pbx.Dialplan.Speech.{Texts, normal, match_speech}
use example_applications.Pbx.Dialplan.Speech.Options.{Any, AreNamed, Fits, match_speech-Fits}
use example_applications.Pbx.Dialplan.Gather.{gather_options, gather_submit, on_stt, options_in}

-- A wired output of the node, other than the default one, that fits what was said.
abbrev pub IsWired : Texts → String → String → String → Edge → Type 0
IsWired x id said option e =
    (e.from ≡ id)
    × (e.port ≡ option)
    × (e.port ≢ port_default)
    × Fits x (normal x said) (normal x option)

options_in-IsWired :
    (x : Texts) (id said option : String) (es : List Edge)
    → Any (λ o. (o ≡ option) × Fits x (normal x said) (normal x o)) (options_in id es)
    → Any (IsWired x id said option) es
unfolding options_in
options_in-IsWired x id said option [] h = elim h [ ]
options_in-IsWired x id said option (e ∷ es) h =
    elim (Bool-cases (e.from == id && not (e.port == port_default))) [
      | inl p ↦ elim (rw (p, options_in) at h) [
        | inl (same, fits) ↦ inl (
          ground (arith, eq_iff e.from id),
          same,
          ground (arith, eq_iff e.port port_default),
          rw same at fits,
        )
        | inr later ↦ inr (options_in-IsWired x id said option es later)
      ]
      | inr p ↦ inr (options_in-IsWired x id said option es (rw (p, options_in) at h))
    ]

-- In a menu without a blank wired output, a transcript either changes nothing, or it is submitted as
-- one of the wired outputs of the menu that the call is in, never as the default one, and the output
-- fits what was said: it stands in it, or a word of it is the output, is the number word for it, or
-- comes within the tolerance of it.
pub on_stt-IsWired :
    (v : Env) (x : Texts) (fuel : ℕ) (e : Exec.Exec) (said : String) (is_final : Bool)
    → AreNamed x (gather_options v.graph e.gather_node)
    → (on_stt v x fuel e said is_final ≡ some (e, [], none, true))
      ⊎ (on_stt v x fuel e said is_final ≡ some (e, [], none, false))
      ⊎ ((option : String) × Any (IsWired x e.gather_node said option) v.graph.edges
          × (on_stt v x fuel e said is_final ≡ gather_submit v fuel e option []))
unfolding on_stt gather_options
on_stt-IsWired v x fuel e said is_final named =
    let hears = e.gather_input == "speech" || e.gather_input == "both" in
    elim (Bool-cases (e.registered && (e.gathering && hears))) [
      | inr p ↦ inr (inl (rw (p, on_stt)))
      | inl p ↦ elim (Bool-cases (not is_final || x.trim_space said == "")) [
        | inl q ↦ inl (rw (p, q, on_stt))
        | inr q ↦ elim (Option-cases (match_speech x said (gather_options v.graph e.gather_node))) [
          | inl r ↦ inl (rw (p, q, on_stt, r))
          | inr (option, r) ↦ inr (
              inr (
                option,
                options_in-IsWired x e.gather_node said option v.graph.edges
                    (match_speech-Fits x said option _ named r),
                rw (p, q, on_stt, r),
              ))
        ]
      ]
    ]
