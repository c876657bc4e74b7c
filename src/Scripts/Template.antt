-- ===== src/Scripts/Template.antt =====
-- scripts/render-script-template.ts: the placeholders of a script and their substitution. A text is the
-- list of its UTF-16 code units.
use fruct.Prelude.{
  ℕ, suc, Bool, ◌+◌, ◌-◌, ◌&&◌, ◌||◌, ◌==◌, leb, if◌then◌else◌, Option, none, some, List, [], ◌∷◌,
  ◌++◌, take, drop, is_some, contains, or_else,
}

-- `\w`
abbrev pub is_word : ℕ → Bool
is_word c = leb 48 c && leb c 57 || (leb 65 c && leb c 90 || (leb 97 c && leb c 122 || c == 95))

-- `\s`
abbrev pub is_space : ℕ → Bool
is_space c =
    leb 9 c && leb c 13
    || (leb 8192 c && leb c 8202
        || contains c (32 ∷ 160 ∷ 5760 ∷ 8232 ∷ 8233 ∷ 8239 ∷ 8287 ∷ 12288 ∷ 65279 ∷ []))

-- How many code units at the start of a text a class accepts.
abbrev pub leading : (ℕ → Bool) → List ℕ → ℕ
leading p [] = 0
leading p (c ∷ cs) = let n = leading p cs in if p c then suc n else 0

-- What stands behind two code units at the start of a text.
abbrev pub behind_two : ℕ → List ℕ → Option (List ℕ)
behind_two k [] = none
behind_two k (c ∷ []) = none
behind_two k (c ∷ d ∷ cs) = if c == k && d == k then some cs else none

-- `/\{\{\s*(\w+)\s*\}\}/` at the start of a text: the key, and the number of code units matched. The
-- classes are disjoint, so that a greedy run is the only one.
unfoldable pub match_placeholder : List ℕ → Option (List ℕ × ℕ)
match_placeholder text = elim (behind_two 123 text) [
  | none ↦ none
  | some inner ↦
      let spaces = leading is_space inner in
      let named = drop spaces inner in
      let letters = leading is_word named in
      let padded = drop letters named in
      let more = leading is_space padded in
      let closed = is_some (behind_two 125 (drop more padded)) in
      if letters == 0
      then none
      else if closed
      then some (take letters named, 2 + spaces + letters + more + 2)
      else none
]

-- The value of a key as a text: none where it is neither a string nor a number nor a Boolean.
abbrev pub Values : Type 0
Values = List ℕ → Option (List ℕ)

-- `replace` with a global pattern: from the left, and behind a match what follows it. The number counts
-- the code units that the last match still covers.
unfoldable pub replace_from : Values → ℕ → List ℕ → List ℕ
replace_from values skip [] = []
replace_from values skip (c ∷ cs) =
    let covered = replace_from values (skip - 1) cs in
    let plain = replace_from values 0 cs in
    if skip == 0
    then elim (match_placeholder (c ∷ cs)) [
      | none ↦ c ∷ plain
      | some (key, n) ↦
          let behind = replace_from values (n - 1) cs in
          or_else (values key) (take n (c ∷ cs)) ++ behind
    ]
    else covered

unfoldable pub render_script_template : Values → List ℕ → List ℕ
render_script_template values content = replace_from values 0 content
