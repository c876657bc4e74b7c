-- ===== src/Delivery/Sample.antt =====
-- A remote service and texts at which the examples run: numbers are written in unary, with a comma behind them.
use Prim.Native.Char.{code}
use Prim.Native.String.{String}
use text.Mathlib.Text.{◌==◌ as str_eq}
use text.Mathlib.TextEquality.{eq_iff}
use fruct.Prelude.{
  inl, inr, subst, Bool-cases, ℕ, zero, suc, false, ◌/◌, ◌≤◌, ◌≡◌, refl, sym, ap, ◌∙◌, arith,
  Option, some, ◌==◌, if◌then◌else◌,
}
use fruct.Prelude.Int.{ℤ, pos, negsuc, pos_part, ltb_ℤ}
use fruct.Platform.Sample.{sample}
use fruct.Delivery.Estimator.{DeliveryEstimate, Remote, object, number, completion}
use fruct.Delivery.Cache.{Texts}

abbrev put : ℕ → String → String
put zero rest = String.◌∷◌ "," rest
put (suc n) rest = String.◌∷◌ "i" (put n rest)

abbrev take_number : String → ℕ × String
take_number String.[] = (0, "")
take_number (String.◌∷◌ c s) =
    let rest = take_number s in if code c == 105 then (suc rest.0, rest.1) else (0, s)

take_number-put : (n : ℕ) (rest : String) → take_number (put n rest) ≡ (n, rest)
take_number-put zero rest = refl
take_number-put (suc n) rest = rw (take_number-put n rest) refl

abbrev put_decimal : ℤ → String → String
put_decimal (pos n) rest = put 0 (put n rest)
put_decimal (negsuc n) rest = put 1 (put n rest)

abbrev to_decimal : ℕ → ℕ → ℤ
to_decimal sign n = if sign == 0 then pos n else negsuc n

abbrev written : DeliveryEstimate ℤ → String
written e = put_decimal e.cost_rub (put e.eta_days_min (put e.eta_days_max ""))

abbrev read : String → Option (DeliveryEstimate ℤ)
read s =
    let sign = take_number s in
    let cost = take_number sign.1 in
    let eta_min = take_number cost.1 in
    let eta_max = take_number eta_min.1 in
    some (record {
      cost_rub = to_decimal sign.0 cost.0;
      eta_days_min = eta_min.0;
      eta_days_max = eta_max.0;
    })

read-put :
    (sign n lo hi : ℕ)
    → read (put sign (put n (put lo (put hi ""))))
      ≡ some (record { cost_rub = to_decimal sign n; eta_days_min = lo; eta_days_max = hi })
read-put sign n lo hi =
    rw (take_number-put sign (put n (put lo (put hi "")))) rw
      (take_number-put n (put lo (put hi ""))) rw (take_number-put lo (put hi "")) rw
      (take_number-put hi "") refl

read-put_decimal :
    (cost : ℤ) (lo hi : ℕ)
    → read (put_decimal cost (put lo (put hi "")))
      ≡ some (record { cost_rub = cost; eta_days_min = lo; eta_days_max = hi })
read-put_decimal (pos n) lo hi = read-put 0 n lo hi
read-put_decimal (negsuc n) lo hi = read-put 1 n lo hi

pub read-written : (e : DeliveryEstimate ℤ) → read (written e) ≡ some e
read-written e = read-put_decimal e.cost_rub e.eta_days_min e.eta_days_max

abbrev IsFilled : String → Type 0
IsFilled String.[] = ⊥
IsFilled (String.◌∷◌ c s) = Unit {0}

filled : (text : String) → IsFilled text → str_eq text "" ≡ false
filled text h = elim (Bool-cases (str_eq text "")) [
  | inl same ↦ absurd (subst IsFilled ((eq_iff text "").0 same) h)
  | inr other ↦ other
]

put_decimal-IsFilled : (cost : ℤ) (rest : String) → IsFilled (put_decimal cost rest)
put_decimal-IsFilled (pos n) rest = tt
put_decimal-IsFilled (negsuc n) rest = tt

pub written-filled : (e : DeliveryEstimate ℤ) → str_eq (written e) "" ≡ false
written-filled e = filled (written e) (put_decimal-IsFilled e.cost_rub _)

pub put-injective : (m n : ℕ) → put m "" ≡ put n "" → m ≡ n
put-injective m n e =
    sym (ap (λ r. r.0) (take_number-put m ""))
    ∙ ap (λ s. (take_number s).0) e
    ∙ ap (λ r. r.0) (take_number-put n "")

-- Capital letters and spaces stay.
abbrev pub plain_texts : Texts ℤ
plain_texts = record {
  trim = λ s. s;
  to_lower_case = λ s. s;
  number_text = λ n. put n "";
  number_text-injective = put-injective;
  stringify = written;
  parse = read;
  parse-stringify = read-written;
  stringify-filled = written-filled;
}

pub round_mono : (a b : ℤ) → ltb_ℤ b a ≡ false → pos_part a / 10000 ≤ pos_part b / 10000
round_mono a b e = ground arith

-- A service that asks 700 roubles for two to four days.
abbrev pub courier : Remote sample
courier = record {
  api_key = some "key";
  fetch = λ params. completion (some "answer");
  parse_json =
      λ text. some (object (number (pos 7000000)) (number (pos 20000)) (number (pos 40000)));
  math_round = λ d. pos_part d / 10000;
  math_round-mono = round_mono;
}
