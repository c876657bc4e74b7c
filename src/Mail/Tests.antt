-- ===== src/Mail/Tests.antt =====
-- Examples for mailer/.
use fruct.Prelude.{ℕ, Bool, true, ◌==◌, ◌≡◌, refl, [], ◌∷◌}
use fruct.Action.{ok, err, internal, mail_not_sent}
use fruct.Schema.{MailJob, MailTemplate}
use fruct.Platform.Sample.{sample}
use fruct.Samples.{shop}
use fruct.Mail.{failure_row, process_mail, log_delivery_failure}

abbrev letter : MailJob
letter = record {
  tenant_id = 1;
  user_id = 2;
  to = "a@x";
  template = MailTemplate.daily_digest;
  subject_id = 1;
}

-- The second attempt succeeds.
abbrev second_works : ℕ → MailJob → Bool
second_works attempt job = attempt == 2

abbrev writable : ℕ → Bool
writable attempt = true

abbrev same : ℕ → ℕ
same attempt = attempt

first_attempt_fails :
    process_mail sample second_works writable same same 1 letter shop
    ≡ (err (internal mail_not_sent), record shop { activity_logs = failure_row 1 1 letter ∷ [] })
unfolding process_mail log_delivery_failure
first_attempt_fails = refl

second_attempt_works :
    process_mail sample second_works writable same same 2 letter shop ≡ (ok tt, shop)
unfolding process_mail
second_attempt_works = refl
