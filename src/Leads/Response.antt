-- ===== src/Leads/Response.antt =====
-- The first response, assignment and deletion of a lead: `changeStatus`, `assign` and `remove` of
-- leads/leads.service.ts.
use fruct.Prelude.{
  ℕ, Bool, true, ◌&&◌, Option, none, some, List, [], ◌∷◌, ◌≡◌, ◌⊎◌, refl, arith, inl, inr,
  Option-cases, Bool-cases, find, find_holds, update_rows, if◌then◌else◌, find-update_rows,
}
use fruct.Schema.{Db, Lead, LeadStatus, User}
use fruct.Session.{AuthenticatedUser, Context, is_manager, by_id}
use fruct.Platform.{Platform}
use fruct.Leads.{is_new, stamp, get_accessible_lead, update_lead, change_status, assign}
use fruct.Leads.Visibility.{visible}

-- The time of the first change to a status other than NEW.
abbrev pub first_reply : List (ℕ × LeadStatus) → Option ℕ
first_reply [] = none
first_reply ((now, status) ∷ hs) = if is_new status then first_reply hs else some now

-- A history of status changes, as one row goes through it.
abbrev pub stamped : List (ℕ × LeadStatus) → Lead → Lead
stamped [] l = l
stamped ((now, status) ∷ hs) l = stamped hs (stamp l status now l)

stamped_keeps :
    (hs : List (ℕ × LeadStatus)) (l : Lead) (t : ℕ)
    → l.first_response_at ≡ some t
    → (stamped hs l).first_response_at ≡ some t
unfolding stamp
stamped_keeps [] l t e = e
stamped_keeps ((now, status) ∷ hs) l t e = stamped_keeps hs _ t (ground arith)

stamped-first_reply :
    (hs : List (ℕ × LeadStatus)) (l : Lead)
    → is_new l.status ≡ true
    → l.first_response_at ≡ none
    → (stamped hs l).first_response_at ≡ first_reply hs
unfolding stamp
stamped-first_reply [] l n e = e
stamped-first_reply ((now, status) ∷ hs) l n e = elim (Bool-cases (is_new status)) [
  | inl still ↦ rw still (stamped-first_reply hs _ still (ground arith))
  | inr moved ↦ rw moved (stamped_keeps hs _ now (ground arith))
]

module _ (lib : Platform) (ctx : Context) (id : ℕ) (user : AuthenticatedUser) where
  open lib use {D, find_first-find, update-found, delete-rows}

  abbrev here : Lead → Bool
  here l = by_id ctx.tenant id l.tenant_id l.id

  abbrev at_time : ℕ → Context
  at_time now = record ctx { now = now }

  -- The same user changes the status of one lead again and again.
  abbrev pub change_history : List (ℕ × LeadStatus) → Db D → Db D
  change_history [] db = db
  change_history ((now, status) ∷ hs) db =
      change_history hs (change_status lib (at_time now) id status user db).1

  change_status-found :
      (now : ℕ) (status : LeadStatus) (db : Db D) (l : Lead)
      → find here db.leads ≡ some l
      → visible ctx user l ≡ true
      → (change_status lib (at_time now) id status user db).1.leads
        ≡ update_rows here (stamp l status now) db.leads
  unfolding change_status update_lead get_accessible_lead
  change_status-found now status db l e seen = ground (
    arith,
    find_first-find here db.leads,
    find_holds here db.leads l e,
    update-found here (stamp l status now) db.leads l e,
  )

  here-stamp : (l : Lead) (status : LeadStatus) (now : ℕ) → here (stamp l status now l) ≡ here l
  unfolding stamp
  here-stamp l status now = refl

  stamp-visible :
      (l : Lead) (status : LeadStatus) (now : ℕ)
      → visible ctx user (stamp l status now l) ≡ visible ctx user l
  unfolding stamp
  stamp-visible l status now = refl

  change_history-stamped :
      (hs : List (ℕ × LeadStatus)) (db : Db D) (l : Lead)
      → find here db.leads ≡ some l
      → visible ctx user l ≡ true
      → find here (change_history hs db).leads ≡ some (stamped hs l)
  change_history-stamped [] db l e seen = e
  change_history-stamped ((now, status) ∷ hs) db l e seen =
      change_history-stamped hs _ (stamp l status now l)
        (rw (change_status-found now status db l e seen) (
          find-update_rows here (stamp l status now) db.leads l e
            (rw (here-stamp l status now) (find_holds here db.leads l e))))
        (rw (stamp-visible l status now) seen)

  -- For a visible NEW lead with no response, after any series of status changes by one user the first
  -- response is the time of the first change to a status other than NEW, also when the lead goes back to
  -- NEW.
  pub first_response_once :
      (hs : List (ℕ × LeadStatus)) (db : Db D) (l : Lead)
      → find here db.leads ≡ some l
      → visible ctx user l ≡ true
      → l.status ≡ LeadStatus.new
      → l.first_response_at ≡ none
      → (l' : Lead) × (find here (change_history hs db).leads ≡ some l')
        × (l'.first_response_at ≡ first_reply hs)
  first_response_once hs db l e seen fresh silent = (
    stamped hs l,
    change_history-stamped hs db l e seen,
    stamped-first_reply hs l (rw fresh refl) silent,
  )

module _ (lib : Platform) (ctx : Context) (id : ℕ) where
  open lib use {D, find_first-find, update-found, update-missing, delete-rows}

  abbrev pub at_id : Lead → Bool
  at_id l = by_id ctx.tenant id l.tenant_id l.id

  abbrev pub at_user : ℕ → User D → Bool
  at_user manager_id u = by_id ctx.tenant manager_id u.tenant_id u.id

  abbrev pub assigned : ℕ → Lead → Lead
  assigned manager_id l = record l { assigned_manager_id = some manager_id }

  -- A lead is assigned only to an active manager of the tenant; a refused request changes nothing.
  pub assign_lem :
      (manager_id : ℕ) (db : Db D)
      → ((l : Lead) × (m : User D) × (find at_id db.leads ≡ some l)
          × (find (at_user manager_id) db.users ≡ some m)
          × (is_manager m.role ≡ true)
          × (m.is_active ≡ true)
          × ((assign lib ctx id manager_id db).1.leads
              ≡ update_rows at_id (assigned manager_id) db.leads))
        ⊎ ((assign lib ctx id manager_id db).1 ≡ db)
  unfolding assign update_lead
  assign_lem manager_id db = elim (Option-cases (find at_id db.leads)) [
    | inl absent ↦ inr (ground (arith, find_first-find at_id db.leads))
    | inr (l, e) ↦ elim (Option-cases (find (at_user manager_id) db.users)) [
      | inl unknown ↦ inr (
          ground
            (arith, find_first-find at_id db.leads, find_first-find (at_user manager_id) db.users))
      | inr (m, f) ↦ elim (Bool-cases (is_manager m.role && m.is_active)) [
        | inl fit ↦ inl (
          l,
          m,
          e,
          f,
          ground arith,
          ground arith,
          ground (
            arith,
            find_first-find at_id db.leads,
            find_first-find (at_user manager_id) db.users,
            update-found at_id (assigned manager_id) db.leads l,
          ),
        )
        | inr unfit ↦ inr (
            ground (
              arith,
              find_first-find at_id db.leads,
              find_first-find (at_user manager_id) db.users,
            ))
      ]
    ]
  ]
