-- ===== src/Security/Sample.antt =====
-- Signatures and hashes at which the examples run: one refresh token, and hashes that are their text.
use text.Mathlib.Text.{◌==◌ as str_eq}
use text.Mathlib.TextPositions.{eq_refl}
use fruct.Prelude.{ℕ, Bool, true, false, none, some, List, [], ◌∷◌, ◌==◌, if◌then◌else◌}
use fruct.Security.{Security, RefreshTokenPayload}

abbrev equal_bytes : List ℕ → List ℕ → Bool
equal_bytes [] [] = true
equal_bytes (x ∷ xs) (y ∷ ys) = let rest = equal_bytes xs ys in if x == y then rest else false
equal_bytes _ _ = false

-- The token of the sample session: row 50, of the user 2.
abbrev pub sample_payload : RefreshTokenPayload
sample_payload = record { sub = 2; jti = 50; tenant_id = 1 }

abbrev pub sample_security : Security
sample_security = record {
  sign_access = λ now payload. "access";
  sign_refresh = λ now payload. "next";
  verify_refresh = λ now token. if str_eq token "refresh" then some sample_payload else none;
  decode_exp = λ token. 9;
  bcrypt_hash = λ password. password;
  bcrypt_compare = str_eq;
  sha256_hex = λ text. text;
  from_hex = λ text. if str_eq text "" then [] else 1 ∷ [];
  timing_safe_equal = equal_bytes;
  bcrypt_compare-bcrypt_hash = eq_refl;
}
