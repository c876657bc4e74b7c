-- ===== src/Auth/Tests.antt =====
-- Examples for auth/auth.service.ts.
use fruct.Prelude.{true, ◌==◌, none, some, [], ◌∷◌, ◌≡◌, refl, arith, find}
use fruct.Prelude.Int.{ℤ}
use fruct.Action.{ok, err, unauthorized, token_reused, bad_reset_link}
use fruct.Schema.{Db, User, RefreshToken}
use fruct.Platform.Sample.{sample}
use fruct.Samples.{shop, a_manager}
use fruct.Security.{verify_password}
use fruct.Security.Sample.{sample_security, sample_payload}
use fruct.Auth.{Moment, refresh, reset_password}
use fruct.Auth.Tokens.{AllRevoked}
use fruct.Auth.Sessions.{Accepted, refresh-Accepted, refresh-rotated, refresh-replayed}
use fruct.Auth.Reset.{reset_password_once}

abbrev at_noon : Moment
at_noon = record { now = 5000; fresh_id = 60; secure_token = "s" }

abbrev session_row : RefreshToken
session_row = record {
  id = 50;
  user_id = 2;
  token_hash = "refresh";
  expires_at = 9000;
  revoked_at = none;
}

abbrev logged_in : Db ℤ
logged_in = record shop {
  refresh_tokens = session_row ∷ [];
  password_reset_tokens =
      record { id = 70; user_id = 2; token_hash = "link"; expires_at = 9000; used_at = none } ∷ [];
}

abbrev session-Accepted : Accepted sample sample_security at_noon "refresh" logged_in
session-Accepted = record {
  payload = sample_payload;
  row = session_row;
  user = a_manager;
  signed = refl;
  found = refl;
  unused = refl;
  in_time = refl;
  same_hash = refl;
  owner = refl;
  active = refl;
}

abbrev next_row : RefreshToken
next_row = record {
  id = 60;
  user_id = 2;
  token_hash = "next";
  expires_at = 9000;
  revoked_at = none;
}

refresh-rotated_example : refresh sample sample_security at_noon "refresh" logged_in ≡ (
  ok (record { access_token = "access"; refresh_token = "next" }),
  record logged_in {
    refresh_tokens = record session_row { revoked_at = some 5000 } ∷ next_row ∷ [];
  },
)
refresh-rotated_example =
    refresh-rotated sample sample_security at_noon "refresh" logged_in (ground arith, tt)
      session-Accepted

refresh-Accepted_example : Accepted sample sample_security at_noon "refresh" logged_in
refresh-Accepted_example =
    refresh-Accepted sample sample_security at_noon "refresh"
      (record { access_token = "access"; refresh_token = "next" }) logged_in
      (record logged_in {
        refresh_tokens = record session_row { revoked_at = some 5000 } ∷ next_row ∷ [];
      })
      (refresh-rotated sample sample_security at_noon "refresh" logged_in (ground arith, tt)
        session-Accepted)

refresh-replayed_example :
    let db' = (refresh sample sample_security at_noon "refresh" logged_in).1 in
    ((refresh sample sample_security at_noon "refresh" db').0 ≡ err (unauthorized token_reused))
    × AllRevoked 2 (refresh sample sample_security at_noon "refresh" db').1.refresh_tokens
refresh-replayed_example =
    refresh-replayed sample sample_security at_noon at_noon "refresh" logged_in (ground arith, tt)
      session-Accepted refl

reset_password_once_example :
    let r = reset_password sample sample_security at_noon "link" "new" logged_in in
    (r.0 ≡ ok tt)
    × AllRevoked 2 r.1.refresh_tokens
    × ((u : User ℤ) × (find (λ (u : User ℤ). u.id == 2) r.1.users ≡ some u)
        × (verify_password sample_security "new" u.password_hash ≡ true))
    × (reset_password sample sample_security at_noon "link" "other" r.1
        ≡ (err (unauthorized bad_reset_link), r.1))
reset_password_once_example =
    reset_password_once sample sample_security at_noon at_noon "link" "new" "other" logged_in
      (record { id = 70; user_id = 2; token_hash = "link"; expires_at = 9000; used_at = none })
      a_manager (tt, tt) refl refl refl refl
