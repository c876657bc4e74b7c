-- ===== src/Users/Tests.antt =====
-- Examples for users/users.service.ts.
use fruct.Prelude.{ℕ, String, true, false, none, some, [], ◌∷◌, ◌≡◌, refl, arith}
use fruct.Prelude.Int.{ℤ}
use fruct.Action.{ok, err, unauthorized, account_unavailable}
use fruct.Schema.{Db, manager}
use fruct.Platform.Sample.{sample}
use fruct.Samples.{shop, a_manager, amount, request_at}
use fruct.Security.{AccessTokenPayload}
use fruct.Security.Sample.{sample_security}
use fruct.Auth.{validate}
use fruct.Auth.Tokens.{AllRevoked}
use fruct.Users.{CreateUser, create_manager, manager_row, block_manager, delete_manager}
use fruct.Users.Blocking.{block_manager-AllRevoked}

abbrev id_text : ℕ → String
id_text id = "id"

abbrev logged_in : Db ℤ
logged_in = record shop {
  refresh_tokens =
      record { id = 50; user_id = 2; token_hash = "refresh"; expires_at = 9000; revoked_at = none }
      ∷ [];
}

abbrev access : AccessTokenPayload
access = record { sub = 2; tenant_id = 1; role = manager; email = "a@x" }

abbrev newcomer : CreateUser ℤ
newcomer = record {
  email = "c@x";
  full_name = "C";
  password = none;
  commission_percent = some (amount 15);
  base_salary = none;
  max_discount_percent = none;
}

-- A generated password is mailed, and has to be changed.
create_manager_runs :
    (create_manager sample sample_security id_text (request_at 80 4) "generated" newcomer shop).0
    ≡ ok (record {
      id = 4;
      tenant_id = 1;
      email = "c@x";
      password_hash = "generated";
      full_name = "C";
      role = manager;
      telegram_chat_id = none;
      base_salary = amount 0;
      commission_percent = amount 15;
      max_discount_percent = amount 0;
      is_active = true;
      must_change_password = true;
      created_at = 80;
    })
unfolding create_manager manager_row
create_manager_runs = refl

block_manager-AllRevoked_example :
    let blocked = block_manager sample sample_security id_text (request_at 80 0) 2 logged_in in
    let deleted = delete_manager sample sample_security id_text (request_at 80 0) 2 logged_in in
    (blocked.0 ≡ ok (record a_manager { is_active = false }))
    × (deleted.0 ≡ ok tt)
    × AllRevoked 2 blocked.1.refresh_tokens
    × AllRevoked 2 deleted.1.refresh_tokens
    × ((validate sample sample_security access blocked.1).0
        ≡ err (unauthorized account_unavailable))
    × ((validate sample sample_security access deleted.1).0
        ≡ err (unauthorized account_unavailable))
block_manager-AllRevoked_example =
    block_manager-AllRevoked sample sample_security id_text (request_at 80 0) 2 a_manager access
      logged_in (ground arith) refl refl refl
