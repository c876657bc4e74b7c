-- ===== src/Action.antt =====
-- An asynchronous method of a service: it reads and writes the state and returns or throws. What
-- was written before a throw stays written. The errors are the HTTP exceptions of @nestjs/common
-- that the services throw, each with the message it carries.
use fruct.Prelude.{arith, ◌≡◌, refl, ◌⊎◌, inl, inr, Bool, true, false, Option, none, some}

-- The message of an exception, one constructor for each text in the source.
pub data Reason : Type 0 where
  lead_missing manager_missing warehouse_missing warehouse_unavailable product_missing : Reason
  products_missing deal_missing payout_missing option_missing quote_missing : Reason
  notification_missing category_missing script_missing : Reason
  duplicate_items discount_over_subtotal discount_over_limit too_many_deliveries : Reason
  bad_transition not_enough_stock quote_linked manager_blocked no_warehouse_in_stock : Reason
  only_draft_edited only_draft_approved only_approved_paid : Reason
  bad_credentials bad_refresh_token refresh_token_rejected token_reused refresh_expired
        account_unavailable :
      Reason
  bad_reset_link role_required no_tenant_context record_missing constraint_violated : Reason
  not_authenticated refused_by_guard : Reason
  no_eligible_warehouse mail_not_sent estimator_not_configured estimator_unreachable
        estimator_status :
      Reason
  estimator_body estimator_empty estimator_bad_json estimator_bad_shape estimator_bad_values :
      Reason

pub data HttpError : Type 0 where
  bad_request unauthorized forbidden not_found conflict internal unavailable : Reason → HttpError

pub data Result (A : Type 0) : Type 0 where
  ok : A → Result A
  err : HttpError → Result A

abbrev pub Action : Type 0 → Type 0 → Type 0
Action S A = S → Result A × S

module _ {S A : Type 0} where
  abbrev pub pure : A → Action S A
  pure a s = (ok a, s)

  abbrev pub throw : HttpError → Action S A
  throw e s = (err e, s)

  abbrev pub gets : (S → A) → Action S A
  gets f s = (ok (f s), s)

  -- `if (!row) { throw … }`
  abbrev pub or_throw : Option A → HttpError → Action S A
  or_throw none e s = (err e, s)
  or_throw (some a) e s = (ok a, s)

infixl 5 ◌>>=◌ ◌>>◌
abbrev pub ◌>>=◌ : {S A B : Type 0} → Action S A → (A → Action S B) → Action S B
◌>>=◌ m f s = let (r, s') = m s in elim r [ ok a ↦ f a s' | err e ↦ (err e, s') ]

abbrev pub ◌>>◌ : {S A B : Type 0} → Action S A → Action S B → Action S B
m >> k = m >>= λ _. k

module _ {S : Type 0} where
  -- `if (test) { throw … }`
  abbrev pub throw_if : Bool → HttpError → Action S (Unit {0})
  throw_if true e s = (err e, s)
  throw_if false e s = (ok tt, s)

  abbrev pub modify : (S → S) → Action S (Unit {0})
  modify f s = (ok tt, f s)

pub Result-cases :
    {A : Type 0} (r : Result A) → ((a : A) × (r ≡ ok a)) ⊎ ((e : HttpError) × (r ≡ err e))
Result-cases (ok a) = inl (a, refl)
Result-cases (err e) = inr (e, refl)

abbrev pub is_ok : {A : Type 0} → Result A → Bool
is_ok (ok a) = true
is_ok (err e) = false

-- A step that has returned or thrown, in front of the rest of a method.
module _ {S A B : Type 0} (m : Action S A) (f : A → Action S B) {s s' : S} where
  pub >>=-ok : {a : A} → m s ≡ (ok a, s') → (m >>= f) s ≡ f a s'
  >>=-ok h = ground arith

  pub >>=-err : {e : HttpError} → m s ≡ (err e, s') → (m >>= f) s ≡ (err e, s')
  >>=-err h = ground arith

pub >>=-eq-ok :
    {S A B : Type 0} (m : Action S A) (f : A → Action S B) (s s'' : S) (b : B)
    → (m >>= f) s ≡ (ok b, s'')
    → (a : A) × (s' : S) × (m s ≡ (ok a, s')) × (f a s' ≡ (ok b, s''))
>>=-eq-ok m f s s'' b e = elim (Result-cases (m s).0) [
  | inl (a, r) ↦ (a, (m s).1, ground arith, ground arith)
  | inr (x, r) ↦ absurd (ground arith)
]

-- Two steps relate the states that each of them relates.
pub >>-keeps :
    {S A B : Type 0} (R : S → S → Type 0)
    → ((s t u : S) → R s t → R t u → R s u)
    → (m : Action S A) (k : Action S B) → ((s : S) → R s (m s).1)
    → ((s : S) → R s (k s).1)
    → (s : S) → R s ((m >> k) s).1
>>-keeps R trans m k first then_ s = elim (Result-cases (m s).0) [
  | inl (a, r) ↦
      let done : m s ≡ (ok a, (m s).1) = ground arith in
      rw (>>=-ok m (λ _. k) done) (trans s (m s).1 (k (m s).1).1 (first s) (then_ (m s).1))
  | inr (e, r) ↦
      let failed : m s ≡ (err e, (m s).1) = ground arith in rw (>>=-err m (λ _. k) failed) (first s)
]

-- A method that only reads.
abbrev pub Reads : {S A : Type 0} → Action S A → Type 0
Reads {S} m = (s : S) → (m s).1 ≡ s
