-- ===== src/Scripts.antt =====
-- scripts/scripts.service.ts: ScriptsService, method by method.
pub mod Template
mod Untouched
pub mod Substitution
pub mod Activation
mod Tests
use fruct.Prelude.{
  ℕ, String, Bool, true, false, ◌&&◌, ◌==◌, if◌then◌else◌, Option, none, some, List, [], ◌∷◌,
  or_else,
}
use fruct.Action.{
  Action, not_found, script_missing, record_missing, pure, gets, modify, or_throw, ◌>>=◌, ◌>>◌,
}
use fruct.Schema.{Db, ScriptTemplate, ScriptCategory}
use fruct.Session.{Context, by_id}
use fruct.Platform.{Platform, asc}
use Template.{Values, render_script_template}

pub record CreateScript : Type 0 where
  pub category : ScriptCategory
  pub title : String
  pub content : List ℕ

pub record UpdateScript : Type 0 where
  pub category : Option ScriptCategory
  pub title : Option String
  pub content : Option (List ℕ)

pub record RenderScript (D : Type 0) : Type 0 where
  pub name : Option (List ℕ)
  pub price : Option D
  pub city : Option (List ℕ)
  pub delivery_days : Option D

-- The position of a category in the enum, by which the database orders.
abbrev pub category_index : ScriptCategory → ℕ
category_index ScriptCategory.greeting = 0
category_index ScriptCategory.price = 1
category_index ScriptCategory.delivery = 2
category_index ScriptCategory.warranty = 3
category_index ScriptCategory.objection = 4
category_index ScriptCategory.closing = 5
category_index ScriptCategory.other = 6

abbrev pub same_text : List ℕ → List ℕ → Bool
same_text [] [] = true
same_text (c ∷ cs) (d ∷ ds) = c == d && same_text cs ds
same_text _ _ = false

abbrev pub to_value : {D : Type 0} → (D → List ℕ) → Option D → Option (List ℕ)
to_value text none = none
to_value text (some n) = some (text n)

-- The keys of `RenderScriptDto`: name, price, city and deliveryDays.
abbrev pub values_of : {D : Type 0} → (D → List ℕ) → RenderScript D → Values
values_of number_text dto key =
    if same_text key (110 ∷ 97 ∷ 109 ∷ 101 ∷ [])
    then dto.name
    else if same_text key (112 ∷ 114 ∷ 105 ∷ 99 ∷ 101 ∷ [])
    then to_value number_text dto.price
    else if same_text key (99 ∷ 105 ∷ 116 ∷ 121 ∷ [])
    then dto.city
    else if same_text key (100 ∷ 101 ∷ 108 ∷ 105 ∷ 118 ∷ 101 ∷ 114 ∷ 121 ∷ 68 ∷ 97 ∷ 121 ∷ 115 ∷ [])
    then to_value number_text dto.delivery_days
    else none

abbrev pub edit_script : UpdateScript → ScriptTemplate → ScriptTemplate
edit_script dto s = record s {
  category = or_else dto.category s.category;
  title = or_else dto.title s.title;
  content = or_else dto.content s.content;
}

abbrev pub set_script_active : Bool → ScriptTemplate → ScriptTemplate
set_script_active active s = record s { is_active = active }

abbrev pub category_matches : Option ScriptCategory → ScriptCategory → Bool
category_matches none c = true
category_matches (some wanted) c = category_index c == category_index wanted

-- `String(value)` of a number is `number_text`.
module _ (lib : Platform) (number_text : lib.D → List ℕ) where
  open lib use {D, find_first, find_many, update, create, order_by, order_by_text}

  unfoldable pub create_script : Context → CreateScript → ℕ → Action (Db D) ScriptTemplate
  create_script ctx dto created_by_id = do
    let script : ScriptTemplate = record {
      id = ctx.fresh_id;
      tenant_id = ctx.tenant;
      category = dto.category;
      title = dto.title;
      content = dto.content;
      is_active = true;
      created_by_id = some created_by_id;
    }
    modify λ (db : Db D). record db { script_templates = create script db.script_templates }
    pure script

  abbrev pub is_listed : Context → Option ScriptCategory → Bool → ScriptTemplate → Bool
  is_listed ctx category include_inactive s =
      s.tenant_id == ctx.tenant
      && category_matches category s.category
      && (if include_inactive then true else s.is_active)

  unfoldable pub find_all_scripts :
      Context → Option ScriptCategory → Bool → Action (Db D) (List ScriptTemplate)
  find_all_scripts ctx category include_inactive = gets λ (db : Db D).
      order_by asc (λ s. category_index s.category)
        (order_by_text (λ s. s.title)
          (find_many (is_listed ctx category include_inactive) db.script_templates))

  unfoldable pub script_or_throw : Context → ℕ → Action (Db D) ScriptTemplate
  script_or_throw ctx id = do
    found ← gets λ (db : Db D).
        find_first (λ (s : ScriptTemplate). by_id ctx.tenant id s.tenant_id s.id)
          db.script_templates
    or_throw found (not_found script_missing)

  -- `findOrThrow`, then the update of the row.
  unfoldable pub edit_row :
      Context → ℕ → (ScriptTemplate → ScriptTemplate) → Action (Db D) ScriptTemplate
  unfolding script_or_throw
  edit_row ctx id edit = do
    _ ← script_or_throw ctx id
    updated ← gets λ (db : Db D).
        update (λ (s : ScriptTemplate). by_id ctx.tenant id s.tenant_id s.id) edit
          db.script_templates
    (row, rows) ← or_throw updated (not_found record_missing)
    modify λ (db : Db D). record db { script_templates = rows }
    pure row

  unfoldable pub update_script : Context → ℕ → UpdateScript → Action (Db D) ScriptTemplate
  update_script ctx id dto = edit_row ctx id (edit_script dto)

  unfoldable pub deactivate_script : Context → ℕ → Action (Db D) ScriptTemplate
  deactivate_script ctx id = edit_row ctx id (set_script_active false)

  unfoldable pub reactivate_script : Context → ℕ → Action (Db D) ScriptTemplate
  reactivate_script ctx id = edit_row ctx id (set_script_active true)

  unfoldable pub render : Context → ℕ → RenderScript D → Action (Db D) (List ℕ)
  render ctx id dto = do
    script ← script_or_throw ctx id
    pure (render_script_template (values_of number_text dto) script.content)
