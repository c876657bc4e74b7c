-- ===== src/Scripts/Tests.antt =====
-- Examples for scripts/.
use fruct.Prelude.{ℕ, true, false, none, some, List, [], ◌∷◌, ◌≡◌, refl, All, arith}
use fruct.Prelude.Int.{ℤ}
use fruct.Action.{ok}
use fruct.Schema.{Db, ScriptTemplate, ScriptCategory}
use fruct.Platform.Sample.{sample}
use fruct.Samples.{shop, request_at}
use fruct.Scripts.{
  set_script_active, find_all_scripts, deactivate_script, reactivate_script, values_of, render,
  script_or_throw,
}
use fruct.Scripts.Template.{Values, replace_from, match_placeholder, render_script_template}
use fruct.Scripts.Substitution.{Token, plain, slot, render_script_template-substitute}
use fruct.Scripts.Activation.{at_script, reactivate-deactivate}

-- "Hi {{ name}}!"
abbrev tokens : List Token
tokens =
    plain (72 ∷ 105 ∷ 32 ∷ [])
    ∷ slot (32 ∷ []) (110 ∷ 97 ∷ 109 ∷ 101 ∷ []) []
    ∷ plain (33 ∷ [])
    ∷ []

abbrev greeting : List ℕ
greeting = 72 ∷ 105 ∷ 32 ∷ 123 ∷ 123 ∷ 32 ∷ 110 ∷ 97 ∷ 109 ∷ 101 ∷ 125 ∷ 125 ∷ 33 ∷ []

abbrev no_number : ℤ → List ℕ
no_number n = []

-- The name is "{{".
abbrev braces : Values
braces =
    values_of no_number
      (record { name = some (123 ∷ 123 ∷ []); price = none; city = none; delivery_days = none })

abbrev a_script : ScriptTemplate
a_script = record {
  id = 60;
  tenant_id = 1;
  category = ScriptCategory.greeting;
  title = "hello";
  content = greeting;
  is_active = true;
  created_by_id = none;
}

abbrev scripted : Db ℤ
scripted = record shop { script_templates = a_script ∷ [] }

render_runs :
    (render sample no_number
      (request_at 9 0)
      60
      (record { name = some (66 ∷ []); price = none; city = none; delivery_days = none })
      scripted).0
    ≡ ok (72 ∷ 105 ∷ 32 ∷ 66 ∷ 33 ∷ [])
unfolding render script_or_throw render_script_template replace_from match_placeholder
render_runs = refl

render_script_template-substitute_example :
    render_script_template braces greeting ≡ 72 ∷ 105 ∷ 32 ∷ 123 ∷ 123 ∷ 33 ∷ []
render_script_template-substitute_example = render_script_template-substitute braces tokens (
  (refl, (refl, (refl, tt))),
  (((refl, tt), (refl, (refl, (refl, (refl, tt)))), omega arith, tt), ((refl, tt), tt)),
)

reactivate-deactivate_example :
    let r = deactivate_script sample no_number (request_at 9 0) 60 scripted in
    (r.0 ≡ ok (set_script_active false a_script))
    × ((listed : List ScriptTemplate) × (find_all_scripts sample no_number
            (request_at 9 0)
            none
            false
            r.1
          ≡ (ok listed, r.1))
        × All (λ l. at_script sample no_number (request_at 9 0) 60 l ≡ false) listed)
    × (reactivate_script sample no_number (request_at 9 0) 60 r.1 ≡ (ok a_script, scripted))
reactivate-deactivate_example =
    reactivate-deactivate sample no_number (request_at 9 0) 60 scripted a_script (tt, tt) refl refl
