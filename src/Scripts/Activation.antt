-- ===== src/Scripts/Activation.antt =====
-- `deactivate`, `reactivate` and `findAll` of scripts/scripts.service.ts.
use fruct.Prelude.{
  ℕ, Bool, true, false, ◌≡◌, refl, sym, ap, ◌∙◌, arith, inl, inr, none, some, List, [], ◌∷◌, Unique,
  found_only, All, All-map, find, filter, find_holds, find-update_rows, update_rows, Bool-cases,
}
use fruct.Action.{ok}
use fruct.Schema.{Db, ScriptTemplate}
use fruct.Session.{Context, by_id}
use fruct.Platform.{Platform, asc}
use fruct.Scripts.{
  category_index, set_script_active, is_listed, find_all_scripts, script_or_throw, edit_row,
  deactivate_script, reactivate_script,
}

module _ {A : Type 0} where
  -- An update that undoes another, on the row that both rewrite.
  update_rows-undo :
      (p : A → Bool) (f g : A → A) (xs : List A)
      → All (λ x. p x ≡ true → (p (f x) ≡ true) × (g (f x) ≡ x)) xs
      → update_rows p g (update_rows p f xs) ≡ xs
  update_rows-undo p f g [] h = refl
  update_rows-undo p f g (x ∷ xs) h = elim (Bool-cases (p x)) [
    | inl hit ↦ ground (arith, h.0 hit, update_rows-undo p f g xs h.1)
    | inr miss ↦ ground (arith, update_rows-undo p f g xs h.1)
  ]

module _ (lib : Platform) (number_text : lib.D → List ℕ) where
  open lib use {
    D, find_first-find, update-found, find_many-filter, All-order_by, All-order_by_text, order_by,
    order_by_text, find_many,
  }

  abbrev pub at_script : Context → ℕ → ScriptTemplate → Bool
  at_script ctx id s = by_id ctx.tenant id s.tenant_id s.id

  edit_row-ok :
      (ctx : Context) (id : ℕ) (edit : ScriptTemplate → ScriptTemplate) (db : Db D)
      (s : ScriptTemplate)
      → find (at_script ctx id) db.script_templates ≡ some s
      → edit_row lib number_text ctx id edit db ≡ (
        ok (edit s),
        record db { script_templates = update_rows (at_script ctx id) edit db.script_templates },
      )
  unfolding edit_row script_or_throw
  edit_row-ok ctx id edit db s e = ground (
    arith,
    e,
    find_first-find (at_script ctx id) db.script_templates,
    update-found (at_script ctx id) edit db.script_templates s e,
  )

  -- The inactive row is not among those that a test of active rows accepts.
  not_listed :
      (ctx : Context) (id : ℕ) (rows : List ScriptTemplate)
      → All
          (λ s. at_script ctx id s ≡ false)
          (filter
            (is_listed lib number_text ctx none false)
            (update_rows (at_script ctx id) (set_script_active false) rows))
  not_listed ctx id [] = tt
  not_listed ctx id (s ∷ rows) = elim (Bool-cases (at_script ctx id s)) [
    | inl hit ↦
        let off : is_listed lib number_text ctx none false (set_script_active false s) ≡ false =
          ground arith in
        rw hit rw off (not_listed ctx id rows)
    | inr miss ↦ elim (Bool-cases (is_listed lib number_text ctx none false s)) [
      | inl shown ↦ rw miss rw shown (miss, not_listed ctx id rows)
      | inr hidden ↦ rw miss rw hidden (not_listed ctx id rows)
    ]
  ]

  -- Where ids are unique, an active script of the tenant is returned as inactive by `deactivate`, is then no longer listed
  -- unless inactive ones are asked for, and `reactivate` returns it as it was and restores the state from before.
  pub reactivate-deactivate :
      (ctx : Context) (id : ℕ) (db : Db D) (s : ScriptTemplate)
      → Unique (λ (s : ScriptTemplate). s.id) db.script_templates
      → find (at_script ctx id) db.script_templates ≡ some s
      → s.is_active ≡ true
      → let r = deactivate_script lib number_text ctx id db in
        (r.0 ≡ ok (set_script_active false s))
        × ((listed : List ScriptTemplate) × (find_all_scripts lib number_text ctx none false r.1
              ≡ (ok listed, r.1))
            × All (λ l. at_script ctx id l ≡ false) listed)
        × (reactivate_script lib number_text ctx id r.1 ≡ (ok s, db))
  unfolding deactivate_script reactivate_script find_all_scripts
  reactivate-deactivate ctx id db s unique e active =
      let off = edit_row-ok ctx id (set_script_active false) db s e in
      let rows = update_rows (at_script ctx id) (set_script_active false) db.script_templates in
      let db' : Db D = record db { script_templates = rows } in
      let found =
        find-update_rows (at_script ctx id) (set_script_active false) db.script_templates s e
          (find_holds (at_script ctx id) db.script_templates s e) in
      let on = edit_row-ok ctx id (set_script_active true) db' (set_script_active false s) found in
      let same : set_script_active true (set_script_active false s) ≡ s =
        ap (λ b. set_script_active b s) (sym active) in
      let only =
        found_only (λ (s : ScriptTemplate). s.id) (at_script ctx id) id (λ x h. ground arith)
          db.script_templates s unique e in
      let undone =
        update_rows-undo (at_script ctx id) (set_script_active false) (set_script_active true)
          db.script_templates
          (All-map _ _ db.script_templates (λ x one hit. (hit, rw (one hit) same)) only) in
      rw off (
        refl,
        (
          _,
          refl,
          All-order_by _ asc (λ s. category_index s.category) _
              (All-order_by_text _ (λ s. s.title) _
                (rw (find_many-filter (is_listed lib number_text ctx none false) rows)
                  (not_listed ctx id db.script_templates))),
        ),
        on
            ∙ ap
                (λ x. (
                  ok x,
                  record db {
                    script_templates = update_rows (at_script ctx id) (set_script_active true) rows;
                  },
                ))
                same
            ∙ ap (λ l. (ok s, record db { script_templates = l })) undone,
      )
