-- ===== src/Scripts/Substitution.antt =====
-- scripts/render-script-template.ts against the list of texts and placeholders that a script is written from.
use fruct.Prelude.{
  ℕ, suc, Bool, true, false, ◌+◌, ◌-◌, ◌≤◌, ◌==◌, ◌≡◌, refl, sym, ◌∙◌, arith, ap, none, some, List,
  [], ◌∷◌, ◌++◌, append_assoc, length-append, take, drop, length, All, or_else,
}
use fruct.Scripts.Template.{
  is_word, is_space, leading, match_placeholder, Values, replace_from, render_script_template,
}

-- A piece of plain text, or a placeholder: the space before its key, the key, and the space behind it.
pub data Token : Type 0 where
  plain : List ℕ → Token
  slot : List ℕ → List ℕ → List ℕ → Token

-- What a slot is followed by in the text.
abbrev slot_text : List ℕ → List ℕ → List ℕ → List ℕ → List ℕ
slot_text before key after rest = 123 ∷ 123 ∷ (before ++ (key ++ (after ++ (125 ∷ 125 ∷ rest))))

abbrev pub print : List Token → List ℕ
print [] = []
print (plain cs ∷ ts) = cs ++ print ts
print (slot before key after ∷ ts) = slot_text before key after (print ts)

abbrev pub substitute : Values → List Token → List ℕ
substitute values [] = []
substitute values (plain cs ∷ ts) = cs ++ substitute values ts
substitute values (slot before key after ∷ ts) =
    or_else (values key) (slot_text before key after []) ++ substitute values ts

-- Plain text has no opening brace; a key is a word, with nothing but space around it.
abbrev pub IsToken : Token → Type 0
IsToken (plain cs) = All (λ c. (c == 123) ≡ false) cs
IsToken (slot before key after) =
    All (λ c. is_space c ≡ true) before
    × All (λ c. is_word c ≡ true) key
    × (1 ≤ length key)
    × All (λ c. is_space c ≡ true) after

abbrev StartsOff : (ℕ → Bool) → List ℕ → Type 0
StartsOff p [] = Unit {0}
StartsOff p (c ∷ cs) = p c ≡ false

leading-run :
    (p : ℕ → Bool) (xs ys : List ℕ)
    → All (λ c. p c ≡ true) xs
    → StartsOff p ys
    → leading p (xs ++ ys) ≡ length xs
leading-run p [] [] h off = refl
leading-run p [] (y ∷ ys) h off = rw off refl
leading-run p (x ∷ xs) ys h off = rw h.0 omega (arith, leading-run p xs ys h.1 off)

drop-run : (xs ys : List ℕ) → drop (length xs) (xs ++ ys) ≡ ys
drop-run [] [] = refl
drop-run [] (y ∷ ys) = refl
drop-run (x ∷ xs) ys = ground (arith, drop-run xs ys)

take-run : (xs ys : List ℕ) → take (length xs) (xs ++ ys) ≡ xs
take-run [] [] = refl
take-run [] (y ∷ ys) = refl
take-run (x ∷ xs) ys = ground (arith, take-run xs ys)

word_no_space : (c : ℕ) → is_word c ≡ true → is_space c ≡ false
word_no_space c e = ground arith

space_no_word : (c : ℕ) → is_space c ≡ true → is_word c ≡ false
space_no_word c e = ground arith

key_starts :
    (key ys : List ℕ)
    → All (λ c. is_word c ≡ true) key
    → 1 ≤ length key
    → StartsOff is_space (key ++ ys)
key_starts [] ys h pos = absurd (omega arith)
key_starts (c ∷ key) ys h pos = word_no_space c h.0

after_starts :
    (after ys : List ℕ)
    → All (λ c. is_space c ≡ true) after
    → StartsOff is_word (after ++ (125 ∷ ys))
after_starts [] ys h = refl
after_starts (c ∷ after) ys h = space_no_word c h.0

slot_length : List ℕ → List ℕ → List ℕ → ℕ
slot_length before key after = 2 + length before + length key + length after + 2

match_placeholder-slot :
    (before key after rest : List ℕ)
    → IsToken (slot before key after)
    → match_placeholder (slot_text before key after rest) ≡ some (key, slot_length before key after)
unfolding match_placeholder slot_length
match_placeholder-slot before key after rest (spaces, word, pos, padding) =
    let closed : List ℕ = 125 ∷ 125 ∷ rest in
    let padded : List ℕ = after ++ closed in
    let named : List ℕ = key ++ padded in
    let some_key : (length key == 0) ≡ false = ground arith in
    rw (leading-run is_space before named spaces (key_starts key padded word pos)) rw
      (drop-run before named) rw
      (leading-run is_word key padded word (after_starts after (125 ∷ rest) padding)) rw
      (drop-run key padded) rw (leading-run is_space after closed padding refl) rw
      (drop-run after closed) rw (take-run key padded) rw some_key refl

replace_from-skip :
    (values : Values) (xs ys : List ℕ)
    → replace_from values (length xs) (xs ++ ys) ≡ replace_from values 0 ys
unfolding replace_from
replace_from-skip values [] ys = refl
replace_from-skip values (x ∷ xs) ys = ground (arith, replace_from-skip values xs ys)

no_brace : (c : ℕ) (cs : List ℕ) → (c == 123) ≡ false → match_placeholder (c ∷ cs) ≡ none
unfolding match_placeholder
no_brace c [] e = refl
no_brace c (d ∷ cs) e = ground (arith, e)

replace_from-plain :
    (values : Values) (cs rest : List ℕ)
    → All (λ c. (c == 123) ≡ false) cs
    → replace_from values 0 (cs ++ rest) ≡ cs ++ replace_from values 0 rest
unfolding replace_from
replace_from-plain values [] rest h = refl
replace_from-plain values (c ∷ cs) rest h =
    rw (no_brace c (cs ++ rest) h.0) (ap (λ l. c ∷ l) (replace_from-plain values cs rest h.1))

-- A text with a match at its start.
replace_from-match :
    (values : Values) (c : ℕ) (cs rest key : List ℕ)
    → match_placeholder (c ∷ (cs ++ rest)) ≡ some (key, suc (length cs))
    → replace_from values 0 (c ∷ (cs ++ rest))
      ≡ or_else (values key) (c ∷ cs) ++ replace_from values 0 rest
unfolding replace_from
replace_from-match values c cs rest key hit =
    let one_less : suc (length cs) - 1 ≡ length cs = omega arith in
    rw hit rw (take-run (c ∷ cs) rest) rw one_less rw (replace_from-skip values cs rest) refl

inner_append :
    (before key after rest : List ℕ)
    → before ++ (key ++ (after ++ (125 ∷ 125 ∷ rest)))
      ≡ (before ++ (key ++ (after ++ (125 ∷ 125 ∷ [])))) ++ rest
inner_append before key after rest = sym (
    append_assoc before (key ++ (after ++ (125 ∷ 125 ∷ []))) rest
    ∙ ap (λ l. before ++ l)
        (append_assoc key (after ++ (125 ∷ 125 ∷ [])) rest
          ∙ ap (λ l. key ++ l) (append_assoc after (125 ∷ 125 ∷ []) rest)))

slot_length_lem :
    (before key after : List ℕ)
    → slot_length before key after
      ≡ suc (suc (length (before ++ (key ++ (after ++ (125 ∷ 125 ∷ []))))))
unfolding slot_length
slot_length_lem before key after = omega (
  arith,
  length-append before (key ++ (after ++ (125 ∷ 125 ∷ []))),
  length-append key (after ++ (125 ∷ 125 ∷ [])),
  length-append after (125 ∷ 125 ∷ []),
)

replace_from-slot :
    (values : Values) (before key after rest : List ℕ)
    → IsToken (slot before key after)
    → replace_from values 0 (slot_text before key after rest)
      ≡ or_else (values key) (slot_text before key after []) ++ replace_from values 0 rest
replace_from-slot values before key after rest h =
    let inner : List ℕ = before ++ (key ++ (after ++ (125 ∷ 125 ∷ []))) in
    let split = inner_append before key after rest in
    let hit : match_placeholder (123 ∷ ((123 ∷ inner) ++ rest))
        ≡ some (key, suc (length (123 ∷ inner))) =
      ap (λ l. match_placeholder (123 ∷ 123 ∷ l)) (sym split)
      ∙ match_placeholder-slot before key after rest h
      ∙ ap (λ n. some (key, n)) (slot_length_lem before key after) in
    ap (λ l. replace_from values 0 (123 ∷ 123 ∷ l)) split
    ∙ replace_from-match values 123 (123 ∷ inner) rest key hit

-- A script that is written as plain pieces without an opening brace and placeholders whose keys are words, with nothing but
-- space around them, is rendered piece by piece: the plain ones as they are, a placeholder as the value of its key, or as it
-- is where the key has none. Braces that a value brings in are not looked at again.
pub render_script_template-substitute :
    (values : Values) (ts : List Token)
    → All IsToken ts
    → render_script_template values (print ts) ≡ substitute values ts
unfolding render_script_template replace_from
render_script_template-substitute values [] h = refl
render_script_template-substitute values (plain cs ∷ ts) h =
    replace_from-plain values cs (print ts) h.0
    ∙ ap (λ l. cs ++ l) (render_script_template-substitute values ts h.1)
render_script_template-substitute values (slot before key after ∷ ts) h =
    replace_from-slot values before key after (print ts) h.0
    ∙ ap (λ l. or_else (values key) (slot_text before key after []) ++ l)
        (render_script_template-substitute values ts h.1)
