-- ===== src/Scripts/Untouched.antt =====
-- scripts/render-script-template.ts: what has no value stays as it is.
use fruct.Prelude.{
  ℕ, ◌-◌, ◌≤◌, ◌==◌, ◌≡◌, refl, arith, ap, inl, inr, none, some, List, [], ◌∷◌, ◌++◌, take, drop,
  Option-cases, Bool-cases,
}
use fruct.Scripts.Template.{match_placeholder, Values, replace_from, render_script_template}

drop-0 : (cs : List ℕ) → drop 0 cs ≡ cs
drop-0 [] = refl
drop-0 (c ∷ cs) = refl

take_append_drop : (n : ℕ) (cs : List ℕ) → take n cs ++ drop n cs ≡ cs
take_append_drop n [] = refl
take_append_drop n (c ∷ cs) = elim (Bool-cases (n == 0)) [
  | inl none_left ↦ rw none_left refl
  | inr more ↦ rw more (ap (λ l. c ∷ l) (take_append_drop (n - 1) cs))
]

match_placeholder-pos : (text key : List ℕ) (n : ℕ) → match_placeholder text ≡ some (key, n) → 4 ≤ n
unfolding match_placeholder
match_placeholder-pos text key n e = ground arith

-- The text of a match and the text behind it.
take_behind : (n c : ℕ) (cs : List ℕ) → 1 ≤ n → take n (c ∷ cs) ++ drop (n - 1) cs ≡ c ∷ cs
take_behind n c cs pos = ground (arith, take_append_drop n (c ∷ cs))

replace_from-none :
    (values : Values)
    → ((key : List ℕ) → values key ≡ none)
    → (skip : ℕ) (cs : List ℕ) → replace_from values skip cs ≡ drop skip cs
unfolding replace_from
replace_from-none values unknown skip [] = refl
replace_from-none values unknown skip (c ∷ cs) = elim (Bool-cases (skip == 0)) [
  | inr covered ↦ rw covered (replace_from-none values unknown (skip - 1) cs)
  | inl here ↦ elim (Option-cases (match_placeholder (c ∷ cs))) [
    | inl plain ↦ rw here rw plain rw (replace_from-none values unknown 0 cs) rw (drop-0 cs) refl
    | inr ((key, n), hit) ↦
        rw here rw hit rw (unknown key) rw (replace_from-none values unknown (n - 1) cs)
          (take_behind n c cs (omega (arith, match_placeholder-pos (c ∷ cs) key n hit)))
  ]
]

-- A text of any form, well-formed placeholders or not, is rendered as it is where no key has a value.
render_script_template-none :
    (values : Values) (content : List ℕ)
    → ((key : List ℕ) → values key ≡ none)
    → render_script_template values content ≡ content
unfolding render_script_template
render_script_template-none values content unknown =
    rw (replace_from-none values unknown 0 content) (drop-0 content)
