-- ===== src/Mail.antt =====
-- mailer/mail.processor.ts: the worker that sends the letters of the queue, at one attempt.
mod Tests
use fruct.Prelude.{ℕ, zero, suc, Bool, true, false, ◌+◌, some, List, [], ◌∷◌, ◌++◌, if◌then◌else◌}
use fruct.Action.{
  Action, Result, ok, err, internal, mail_not_sent, pure, throw, modify, ◌>>=◌, ◌>>◌,
}
use fruct.Schema.{Db, MailJob, ActivityLog}
use fruct.Platform.{Platform}

abbrev pub failure_row : ℕ → ℕ → MailJob → ActivityLog
failure_row id now job = record {
  id = id;
  tenant_id = job.tenant_id;
  user_id = some job.user_id;
  to = job.to;
  template = job.template;
  created_at = now;
}

-- Whether a letter is rendered and sent at an attempt, whether its failure can be written, the time of an
-- attempt and the id of its row come from outside.
module _ (lib : Platform) (sends : ℕ → MailJob → Bool) (can_log : ℕ → Bool) (time_of : ℕ → ℕ)
    (new_id : ℕ → ℕ) where
  open lib use {D, create}

  -- A failure to write is swallowed.
  unfoldable pub log_delivery_failure : ℕ → MailJob → Action (Db D) (Unit {0})
  log_delivery_failure attempt job =
      if can_log attempt
      then modify (λ (db : Db D). record db {
        activity_logs =
            create (failure_row (new_id attempt) (time_of attempt) job) db.activity_logs;
      })
      else pure tt

  unfoldable pub process_mail : ℕ → MailJob → Action (Db D) (Unit {0})
  process_mail attempt job =
      if sends attempt job
      then pure tt
      else (do log_delivery_failure attempt job; throw (internal mail_not_sent))
