-- ===== src/Leads.antt =====
-- leads/leads.service.ts: LeadsService, method by method. A response is the row that it is made of.
pub mod Visibility
pub mod Response
mod Tests
use text.Mathlib.Text.{◌==◌ as str_eq}
use native.Mathlib.Decide.{ℕ_discrete}
use fruct.Prelude.{
  ℕ, String, Bool, true, false, not, ◌&&◌, ◌||◌, Option, none, some, List, ◌==◌, if◌then◌else◌,
  is_id, is_some, or_else, given, any, where_eq,
}
use fruct.Action.{
  Action, not_found, conflict, lead_missing, manager_missing, manager_blocked, constraint_violated,
  record_missing, pure, gets, modify, or_throw, throw_if, ◌>>=◌, ◌>>◌,
}
use fruct.Schema.{Db, Lead, LeadStatus, LeadSource, BuyerType, individual, avito}
use fruct.Session.{AuthenticatedUser, Context, is_manager, by_id}
use fruct.Platform.{Platform, desc}

-- `status === LeadStatus.NEW`
abbrev pub is_new : LeadStatus → Bool
is_new LeadStatus.new = true
is_new _ = false

pub LeadStatus-discrete : Discrete LeadStatus
LeadStatus-discrete = hlevel

pub LeadSource-discrete : Discrete LeadSource
LeadSource-discrete = hlevel

pub record CreateLead : Type 0 where
  pub full_name : Option String
  pub phone : Option String
  pub city : Option String
  pub source : Option LeadSource
  pub source_link : Option String
  pub notes : Option String
  pub buyer_type : Option BuyerType
  pub company_name : Option String
  pub inn : Option String
  pub next_follow_up_at : Option ℕ

-- A field that is absent leaves the column as it is.
pub record UpdateLead : Type 0 where
  pub full_name : Option String
  pub phone : Option String
  pub city : Option String
  pub source_link : Option String
  pub notes : Option String
  pub buyer_type : Option BuyerType
  pub company_name : Option String
  pub inn : Option String
  pub next_follow_up_at : Option ℕ

pub record ListLeadsQuery : Type 0 where
  pub status : Option LeadStatus
  pub source : Option LeadSource
  pub assigned_manager_id : Option ℕ
  pub search : Option String
  pub limit : Option ℕ
  pub offset : Option ℕ

-- The row that `create` inserts, with the defaults of the schema.
abbrev new_lead : Context → CreateLead → AuthenticatedUser → Lead
new_lead ctx dto user = record {
  id = ctx.fresh_id;
  tenant_id = ctx.tenant;
  assigned_manager_id = if is_manager user.role then some user.id else none;
  full_name = dto.full_name;
  phone = dto.phone;
  city = dto.city;
  source = or_else dto.source avito;
  source_link = dto.source_link;
  status = LeadStatus.new;
  notes = dto.notes;
  buyer_type = or_else dto.buyer_type individual;
  company_name = dto.company_name;
  inn = dto.inn;
  first_response_at = none;
  last_contact_at = none;
  next_follow_up_at = dto.next_follow_up_at;
  created_at = ctx.now;
}

abbrev edit_lead : UpdateLead → Lead → Lead
edit_lead dto l = record l {
  full_name = given dto.full_name l.full_name;
  phone = given dto.phone l.phone;
  city = given dto.city l.city;
  source_link = given dto.source_link l.source_link;
  notes = given dto.notes l.notes;
  buyer_type = or_else dto.buyer_type l.buyer_type;
  company_name = given dto.company_name l.company_name;
  inn = given dto.inn l.inn;
  next_follow_up_at = given dto.next_follow_up_at l.next_follow_up_at;
}

-- The data of `changeStatus`, where `seen` is the row that was read before the update.
unfoldable pub stamp : Lead → LeadStatus → ℕ → Lead → Lead
stamp seen status now l = record l {
  status = status;
  last_contact_at = some now;
  first_response_at =
      if is_new seen.status && not (is_new status) && not (is_some seen.first_response_at)
      then some now
      else l.first_response_at;
}

module _ (lib : Platform) where
  open lib use {
    D, find_first, find_many, update, create, delete, order_by, page, contains_insensitive,
  }

  -- `prisma.lead.update({ where: { id }, data })`
  update_lead : Context → ℕ → (Lead → Lead) → Action (Db D) Lead
  update_lead ctx id f db =
      elim (update (λ (l : Lead). by_id ctx.tenant id l.tenant_id l.id) f db.leads) [
        | none ↦ or_throw none (not_found record_missing) db
        | some (l, leads) ↦ pure l (record db { leads = leads })
      ]

  unfoldable pub get_accessible_lead : Context → ℕ → AuthenticatedUser → Action (Db D) Lead
  get_accessible_lead ctx id user = do
    found ← gets (λ (db : Db D). find_first (λ l. by_id ctx.tenant id l.tenant_id l.id) db.leads)
    lead ← or_throw found (not_found lead_missing)
    throw_if (is_manager user.role && not (is_id lead.assigned_manager_id user.id))
        (not_found lead_missing)
    pure lead

  pub create_lead : Context → CreateLead → AuthenticatedUser → Action (Db D) Lead
  create_lead ctx dto user = do
    modify λ (db : Db D). record db { leads = create (new_lead ctx dto user) db.leads }
    pure (new_lead ctx dto user)

  -- `{ contains: search, mode: 'insensitive' }` on a column that may be null.
  abbrev column_contains : String → Option String → Bool
  column_contains search none = false
  column_contains search (some text) = contains_insensitive text search

  -- `query.search ? { OR: […] } : {}`
  abbrev matches_search : Option String → Lead → Bool
  matches_search none l = true
  matches_search (some search) l =
      str_eq search ""
      || column_contains search l.full_name
      || column_contains search l.phone
      || column_contains search l.company_name

  -- The where clause of `findAll`: a manager asks for their own leads, whatever the query names.
  abbrev matches_query : Context → ListLeadsQuery → AuthenticatedUser → Lead → Bool
  matches_query ctx query user l =
      let assigned = if is_manager user.role then some user.id else query.assigned_manager_id in
      l.tenant_id == ctx.tenant
      && where_eq LeadStatus-discrete query.status l.status
      && where_eq LeadSource-discrete query.source l.source
      && elim assigned [ none ↦ true | some m ↦ is_id l.assigned_manager_id m ]
      && matches_search query.search l

  pub find_all : Context → ListLeadsQuery → AuthenticatedUser → Action (Db D) (List Lead)
  find_all ctx query user = gets λ (db : Db D).
      page (or_else query.limit 50) (or_else query.offset 0)
        (order_by desc (λ l. l.created_at) (find_many (matches_query ctx query user) db.leads))

  pub update_lead_fields : Context → ℕ → UpdateLead → AuthenticatedUser → Action (Db D) Lead
  unfolding update_lead
  update_lead_fields ctx id dto user = do
    get_accessible_lead ctx id user
    update_lead ctx id (edit_lead dto)

  pub change_status : Context → ℕ → LeadStatus → AuthenticatedUser → Action (Db D) Lead
  unfolding update_lead
  change_status ctx id status user = do
    lead ← get_accessible_lead ctx id user
    update_lead ctx id (stamp lead status ctx.now)

  pub assign : Context → ℕ → ℕ → Action (Db D) Lead
  unfolding update_lead
  assign ctx id manager_id = do
    found ← gets (λ (db : Db D). find_first (λ l. by_id ctx.tenant id l.tenant_id l.id) db.leads)
    or_throw found (not_found lead_missing)
    candidate ←
        gets λ (db : Db D). find_first (λ u. by_id ctx.tenant manager_id u.tenant_id u.id) db.users
    manager ← or_throw candidate (not_found manager_missing)
    throw_if (not (is_manager manager.role)) (not_found manager_missing)
    throw_if (not manager.is_active) (conflict manager_blocked)
    update_lead ctx id (λ l. record l { assigned_manager_id = some manager_id })

  -- `prisma.lead.delete`: the foreign key `deals_leadId_fkey` restricts it.
  unfoldable pub delete_lead : Context → ℕ → Action (Db D) (Unit {0})
  delete_lead ctx id = do
    linked ← gets λ (db : Db D). any (λ d. d.lead_id == id) db.deals
    throw_if linked (conflict constraint_violated)
    modify λ (db : Db D). record db {
      leads = delete (λ l. by_id ctx.tenant id l.tenant_id l.id) db.leads;
    }

  unfoldable pub remove : Context → ℕ → AuthenticatedUser → Action (Db D) (Unit {0})
  remove ctx id user = do get_accessible_lead ctx id user; delete_lead ctx id
