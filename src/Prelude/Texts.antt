-- ===== src/Prelude/Texts.antt =====
-- Texts with a colon between their parts.
use Prim.Native.Char.{code}
use Prim.Native.String.append
use Prim.Native.String.{String, ◌++◌}
use mathlib.Core.Path.{◌≡◌, refl, sym, ap, ◌∙◌}
use mathlib.Core.Bool.{Bool, true, not, ◌&&◌}
use native.Mathlib.Omega.{arith}
use fruct.Prelude.Tests.{◌==◌}

abbrev pub colon_free : String → Bool
colon_free String.[] = true
colon_free (String.◌∷◌ c s) = not (code c == 58) && colon_free s

pub append_cancel : (a b c : String) → a ++ b ≡ a ++ c → b ≡ c
append_cancel String.[] b c e = sym (append.nil b) ∙ e ∙ append.nil c
append_cancel (String.◌∷◌ x a) b c e =
    append_cancel a b c (cc (append.cons x a b, append.cons x a c, e))

colon_cons : (b : String) → ":" ++ b ≡ String.◌∷◌ ":" b
colon_cons b = append.cons ":" "" b ∙ ap (λ t. String.◌∷◌ ":" t) (append.nil b)

leading_colon :
    (a b b' : String) → colon_free a ≡ true → ":" ++ b ≡ a ++ (":" ++ b') → ("" ≡ a) × (b ≡ b')
leading_colon String.[] b b' free e = (refl, append_cancel ":" b b' (e ∙ append.nil (":" ++ b')))
leading_colon (String.◌∷◌ c a) b b' free e =
    let colon : ":" ≡ c = cc (colon_cons b, append.cons c a (":" ++ b'), e) in
    absurd (ground (arith, ap code colon))

-- A text is read back up to its first colon.
pub colon_split :
    (a a' b b' : String)
    → colon_free a ≡ true
    → colon_free a' ≡ true
    → a ++ (":" ++ b) ≡ a' ++ (":" ++ b')
    → (a ≡ a') × (b ≡ b')
colon_split String.[] a' b b' free free' e =
    leading_colon a' b b' free' (sym (append.nil (":" ++ b)) ∙ e)
colon_split (String.◌∷◌ c a) String.[] b b' free free' e =
    let (empty, same) =
      leading_colon (String.◌∷◌ c a) b' b free (sym (append.nil (":" ++ b')) ∙ sym e) in
    (sym empty, sym same)
colon_split (String.◌∷◌ c a) (String.◌∷◌ c' a') b b' free free' e =
    let left = append.cons c a (":" ++ b) in
    let right = append.cons c' a' (":" ++ b') in
    let (same, rest) = colon_split a a' b b' (ground arith) (ground arith) (cc (left, right, e)) in
    let head : c ≡ c' = cc (left, right, e) in (cc, rest)
