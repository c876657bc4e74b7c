-- ===== src/Leads/Tests.antt =====
-- Examples for leads/leads.service.ts.
use fruct.Prelude.{true, none, some, [], ◌∷◌, ◌≡◌, refl, All, find}
use fruct.Action.{ok, err, not_found, lead_missing}
use fruct.Schema.{Lead, LeadStatus}
use fruct.Platform.Sample.{sample}
use fruct.Samples.{shop, sample_lead, manager_session, other_session, request_at}
use fruct.Leads.{
  UpdateLead, ListLeadsQuery, get_accessible_lead, find_all, update_lead_fields, change_status,
  remove, stamp,
}
use fruct.Leads.Visibility.{
  visible, hidden, get_accessible_lead-hidden, requests-hidden, find_all-visible,
}
use fruct.Leads.Response.{change_history, first_response_once, at_id}

abbrev no_changes : UpdateLead
no_changes = record {
  full_name = none;
  phone = none;
  city = none;
  source_link = none;
  notes = none;
  buyer_type = none;
  company_name = none;
  inn = none;
  next_follow_up_at = none;
}

abbrev any_lead : ListLeadsQuery
any_lead = record {
  status = none;
  source = none;
  assigned_manager_id = some 2;
  search = none;
  limit = none;
  offset = none;
}

change_status_runs :
    (change_status sample (request_at 9 0) 30 LeadStatus.won manager_session shop).0
    ≡ ok (record sample_lead {
      status = LeadStatus.won;
      first_response_at = some 9;
      last_contact_at = some 9;
    })
unfolding change_status get_accessible_lead stamp
change_status_runs = refl

get_accessible_lead-hidden_example :
    get_accessible_lead sample (request_at 9 0) 30 other_session shop
    ≡ (err (not_found lead_missing), shop)
get_accessible_lead-hidden_example =
    get_accessible_lead-hidden sample (request_at 9 0) 30 other_session shop (λ _. refl, tt)

requests-hidden_example :
    let ctx = request_at 9 0 in
    (hidden ctx other_session
        (update_lead_fields sample ctx 30 no_changes other_session shop).1.leads
      ≡ sample_lead ∷ [])
    × (hidden ctx other_session
          (change_status sample ctx 30 LeadStatus.won other_session shop).1.leads
        ≡ sample_lead ∷ [])
    × (hidden ctx other_session (remove sample ctx 30 other_session shop).1.leads
        ≡ sample_lead ∷ [])
requests-hidden_example =
    requests-hidden sample (request_at 9 0) 30 other_session no_changes LeadStatus.won shop (tt, tt)

find_all-visible_example :
    All (λ l. visible (request_at 9 0) manager_session l ≡ true) (sample_lead ∷ [])
unfolding find_all
find_all-visible_example =
    find_all-visible sample (request_at 9 0) manager_session any_lead shop shop (sample_lead ∷ [])
      refl

first_response_once_example :
    (l' : Lead) × (find
        (at_id sample (request_at 9 0) 30)
        (change_history sample
          (request_at 9 0)
          30
          manager_session
          ((9, LeadStatus.contacted) ∷ (10, LeadStatus.new) ∷ (11, LeadStatus.won) ∷ [])
          shop).leads
      ≡ some l')
    × (l'.first_response_at ≡ some 9)
first_response_once_example =
    first_response_once sample (request_at 9 0) 30 manager_session
      ((9, LeadStatus.contacted) ∷ (10, LeadStatus.new) ∷ (11, LeadStatus.won) ∷ []) shop
      sample_lead refl refl refl refl
