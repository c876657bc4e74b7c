-- ===== src/Leads/Visibility.antt =====
-- Who sees a lead, and what a request does to the leads that its user does not see: the visibility
-- rule of leads/leads.service.ts.
use fruct.Prelude.{
  ℕ, Bool, true, false, not, ◌&&◌, ◌||◌, some, List, ◌==◌, ◌≡◌, refl, sym, is_id, arith, ◌⊎◌, inl,
  inr, Option-cases, Bool-cases, All, All-map, All-filter, find, find-All, find_holds, filter,
  update_rows, Unique, found_only, filter-update_rows, filter-filter-not,
}
use fruct.Action.{HttpError, Result, ok, err, ◌>>=◌, >>=-ok, >>=-err, not_found, lead_missing}
use fruct.Schema.{Db, Lead, LeadStatus}
use fruct.Session.{AuthenticatedUser, Context, is_manager, by_id}
use fruct.Platform.{Platform}
use fruct.Leads.{
  UpdateLead, ListLeadsQuery, edit_lead, stamp, get_accessible_lead, find_all, matches_query,
  update_lead, update_lead_fields, change_status, delete_lead, remove,
}

-- A lead of the tenant; to a manager, only one that is assigned to them.
abbrev pub visible : Context → AuthenticatedUser → Lead → Bool
visible ctx user l =
    l.tenant_id == ctx.tenant && (not (is_manager user.role) || is_id l.assigned_manager_id user.id)

-- The leads outside a user's view, in the order of the table.
abbrev pub hidden : Context → AuthenticatedUser → List Lead → List Lead
hidden ctx user = filter λ l. not (visible ctx user l)

module _ (lib : Platform) (ctx : Context) (id : ℕ) (user : AuthenticatedUser) where
  open lib use {D, find_first-find, update-found, delete-rows}

  abbrev here : Lead → Bool
  here l = by_id ctx.tenant id l.tenant_id l.id

  pub get_accessible_lead_lem :
      (db db' : Db D) (l : Lead)
      → get_accessible_lead lib ctx id user db ≡ (ok l, db')
      → (db' ≡ db) × (find here db.leads ≡ some l) × (visible ctx user l ≡ true) × (l.id ≡ id)
  unfolding get_accessible_lead
  get_accessible_lead_lem db db' l e =
      ground (arith, find_first-find here db.leads, find_holds here db.leads l)

  -- When no lead with the id is in the user's view, the answer is that the lead does not exist, and
  -- nothing changes.
  pub get_accessible_lead-hidden :
      (db : Db D)
      → All (λ l. l.id ≡ id → visible ctx user l ≡ false) db.leads
      → get_accessible_lead lib ctx id user db ≡ (err (not_found lead_missing), db)
  unfolding get_accessible_lead
  get_accessible_lead-hidden db h = elim (Option-cases (find here db.leads)) [
    | inl absent ↦ ground (arith, find_first-find here db.leads)
    | inr (l, e) ↦
        let (unseen, hit) = find-All _ here db.leads l h e in
        ground (arith, find_first-find here db.leads, unseen (ground arith))
  ]

  at_id : (l : Lead) → here l ≡ true → l.id ≡ id
  at_id l h = ground arith

  -- An update of the visible lead that was found leaves the hidden leads alone.
  hidden-update :
      (f : Lead → Lead) (leads : List Lead) (l : Lead)
      → Unique (λ r. r.id) leads
      → find here leads ≡ some l
      → visible ctx user l ≡ true
      → visible ctx user (f l) ≡ true
      → hidden ctx user (update_rows here f leads) ≡ hidden ctx user leads
  hidden-update f leads l u e seen kept =
      filter-update_rows (λ r. not (visible ctx user r)) here f leads
        (All-map _ _ leads
          (λ r only h. let same = only h in (rw (same, seen) refl, rw (same, kept) refl))
          (found_only (λ r. r.id) here id at_id leads l u e))

  pub get_accessible_lead-cases :
      (db : Db D)
      → ((l : Lead) × (get_accessible_lead lib ctx id user db ≡ (ok l, db))
          × (find here db.leads ≡ some l)
          × (visible ctx user l ≡ true))
        ⊎ ((e : HttpError) × (get_accessible_lead lib ctx id user db ≡ (err e, db)))
  unfolding get_accessible_lead
  get_accessible_lead-cases db = elim (Option-cases (find here db.leads)) [
    | inl absent ↦ inr (not_found lead_missing, ground (arith, find_first-find here db.leads))
    | inr (l, e) ↦ elim (Bool-cases (visible ctx user l)) [
      | inl seen ↦
          inl
            (l, ground (arith, find_first-find here db.leads, find_holds here db.leads l), e, seen)
      | inr unseen ↦ inr (
        not_found lead_missing,
        ground (arith, find_first-find here db.leads, find_holds here db.leads l),
      )
    ]
  ]

  -- A guarded update that keeps its lead visible changes no hidden lead.
  guarded-hidden :
      (f : Lead → Lead → Lead) (db : Db D)
      → ((seen l : Lead) → visible ctx user l ≡ true → visible ctx user (f seen l) ≡ true)
      → Unique (λ r. r.id) db.leads
      → hidden ctx user
          ((get_accessible_lead lib ctx id user >>= λ seen. update_lead lib ctx id (f seen))
            db).1.leads
        ≡ hidden ctx user db.leads
  unfolding update_lead
  guarded-hidden f db keeps u = elim (get_accessible_lead-cases db) [
    | inl (l, got, e, seen) ↦ rw (>>=-ok (get_accessible_lead lib ctx id user) _ got) (
        ground (
          arith,
          update-found here (f l) db.leads l e,
          hidden-update (f l) db.leads l u e seen (keeps l l seen),
        ))
    | inr (e, got) ↦ rw (>>=-err (get_accessible_lead lib ctx id user) _ got) refl
  ]

  -- No request to edit, move or delete a lead changes a lead outside the user's view.
  pub update_lead_fields-hidden :
      (dto : UpdateLead) (db : Db D)
      → Unique (λ r. r.id) db.leads
      → hidden ctx user (update_lead_fields lib ctx id dto user db).1.leads
        ≡ hidden ctx user db.leads
  unfolding update_lead_fields
  update_lead_fields-hidden dto db u = guarded-hidden (λ _. edit_lead dto) db (λ s l v. v) u

  pub change_status-hidden :
      (status : LeadStatus) (db : Db D)
      → Unique (λ r. r.id) db.leads
      → hidden ctx user (change_status lib ctx id status user db).1.leads ≡ hidden ctx user db.leads
  unfolding change_status stamp
  change_status-hidden status db u = guarded-hidden (λ s. stamp s status ctx.now) db (λ s l v. v) u

  pub remove-hidden :
      (db : Db D)
      → Unique (λ r. r.id) db.leads
      → hidden ctx user (remove lib ctx id user db).1.leads ≡ hidden ctx user db.leads
  unfolding remove delete_lead
  remove-hidden db u = elim (get_accessible_lead-cases db) [
    | inl (l, got, e, seen) ↦
        let kept =
          filter-filter-not (λ r. not (visible ctx user r)) here db.leads
            (All-map _ _ db.leads (λ r only h. rw (only h, seen) refl)
              (found_only (λ r. r.id) here id at_id db.leads l u e)) in
        rw (>>=-ok (get_accessible_lead lib ctx id user) _ got)
          (ground (arith, delete-rows here db.leads, kept))
    | inr (e, got) ↦ rw (>>=-err (get_accessible_lead lib ctx id user) _ got) refl
  ]

module _ (lib : Platform) (ctx : Context) (user : AuthenticatedUser) where
  open lib use {D, find_many-filter, All-page, All-order_by}

  -- Every lead that a list returns is of the tenant, and to a manager one assigned to them, whatever the
  -- query asks for.
  pub find_all-visible :
      (query : ListLeadsQuery) (db db' : Db D) (ls : List Lead)
      → find_all lib ctx query user db ≡ (ok ls, db')
      → All (λ l. visible ctx user l ≡ true) ls
  unfolding find_all
  find_all-visible query db db' ls e = rw (sym (rows e)) (
      All-page _ _ _ _ (
        All-order_by _ _ _ _ (
          rw (find_many-filter (matches_query lib ctx query user) db.leads) (
            All-map _ _ _ (λ l h. ground arith)
              (All-filter (matches_query lib ctx query user) db.leads)))))
    where
      rows :
          {a b : List Lead} {s s' : Db D}
          → ◌≡◌ {A = Result (List Lead) × Db D} (ok a, s) (ok b, s')
          → a ≡ b
      rows h = cc

-- Whatever a user asks of a lead, to edit it, to change its status or to delete it, the leads outside
-- that user's view are afterwards the same rows in the same order, if lead ids are unique. The view
-- is the tenant's leads to an owner, and those assigned to them to a manager.
pub requests-hidden :
    (lib : Platform) (ctx : Context) (id : ℕ) (user : AuthenticatedUser) (dto : UpdateLead)
    (status : LeadStatus) (db : Db (lib.D))
    → Unique (λ r. r.id) db.leads
    → (hidden ctx user (update_lead_fields lib ctx id dto user db).1.leads
        ≡ hidden ctx user db.leads)
      × (hidden ctx user (change_status lib ctx id status user db).1.leads
          ≡ hidden ctx user db.leads)
      × (hidden ctx user (remove lib ctx id user db).1.leads ≡ hidden ctx user db.leads)
requests-hidden lib ctx id user dto status db u = (
  update_lead_fields-hidden lib ctx id user dto db u,
  change_status-hidden lib ctx id user status db u,
  remove-hidden lib ctx id user db u,
)
