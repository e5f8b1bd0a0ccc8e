-- ===== src/Notifications.antt =====
-- src/modules/notifications: the options of a job (notifications.constants.ts) and what the worker
-- does with one (order-notification.processor.ts). A rate and a random number are whole numbers of
-- millionths; none is a rate that is not set or not a number. The
-- 200 milliseconds that `process` waits are left out.
pub mod Delivery
use backend_assessment_chall.Prelude.{
  Bool, Option, false, if◌then◌else◌, ite, leb, ltb, none, some, true, ℕ, ◌+◌, ◌==◌,
}
use backend_assessment_chall.Prelude.Int.{negsuc, pos, ℤ}
use backend_assessment_chall.Prelude.Text.{Text, codes, text_discrete}

abbrev pub order_confirmation_job : Text
order_confirmation_job = codes "order-confirmation"

-- `ORDER_CONFIRMATION_JOB_OPTIONS.attempts`
abbrev pub order_confirmation_attempts : ℕ
order_confirmation_attempts = 5

-- A job as the worker sees it; `attempts` is its option.
pub record NotificationJob : Type 0 where
  pub name : Text
  pub order_id : Text
  pub user_id : Text
  pub attempts_made : ℕ
  pub attempts : Option ℕ

-- A line of the log, with the order and the number of the attempt that it names.
pub data Line : Type 0 where
  ignored : Text → Line
  sent : Text → Text → ℕ → Line
  no_context : Line
  permanently_failed : Text → ℕ → Line
  will_retry : Text → ℕ → Line

-- `shouldSimulateFailure`
unfoldable pub should_simulate_failure : Option ℤ → ℕ → Bool
should_simulate_failure none random = false
should_simulate_failure (some (negsuc n)) random = false
should_simulate_failure (some (pos n)) random = if n == 0 then false else ltb random n

-- What `process` ends in: it returns, with the line that it logged, or it throws.
pub data Processed : Type 0 where
  completed : Line → Processed
  simulated_failure : Text → ℕ → Processed

-- `process`
unfoldable pub process : Option ℤ → ℕ → NotificationJob → Processed
unfolding should_simulate_failure
process rate random job =
    if ite (text_discrete job.name order_confirmation_job) true false
    then if should_simulate_failure rate random
      then simulated_failure job.order_id (job.attempts_made + 1)
      else completed (sent job.order_id job.user_id (job.attempts_made + 1))
    else completed (ignored job.name)

-- `??`
abbrev pub attempts_or_one : Option ℕ → ℕ
attempts_or_one none = 1
attempts_or_one (some n) = n

-- `onFailed`: the line that is logged.
unfoldable pub on_failed : Option NotificationJob → Line
on_failed none = no_context
on_failed (some job) =
    if leb (attempts_or_one job.attempts) job.attempts_made
    then permanently_failed job.order_id job.attempts_made
    else will_retry job.order_id job.attempts_made
