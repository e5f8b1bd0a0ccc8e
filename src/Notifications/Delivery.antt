-- ===== src/Notifications/Delivery.antt =====
-- When a notification is sent.
use backend_assessment_chall.Prelude.{Option, arith, none, refl, some, true, ℕ, ◌+◌, ◌<◌, ◌↔◌, ◌≡◌}
use backend_assessment_chall.Notifications.{
  NotificationJob, order_confirmation_job, process, should_simulate_failure, simulated_failure,
}
use backend_assessment_chall.Prelude.Int.{negsuc, pos, ℤ}

drawn_below :
    (rate : Option ℤ) (random : ℕ)
    → should_simulate_failure rate random ≡ true
    → (n : ℕ) × (rate ≡ some (pos n)) × (random < n)
unfolding should_simulate_failure
drawn_below none random h = ground arith
drawn_below (some (negsuc n)) random h = ground arith
drawn_below (some (pos n)) random h = (n, refl, ground arith)

-- A job fails exactly if it is an order confirmation, the rate is above 0, and the number drawn is
-- below the rate; then the exception names the order and the attempt.
pub process-fails :
    (rate : Option ℤ) (random : ℕ) (job : NotificationJob)
    → (process rate random job ≡ simulated_failure job.order_id (job.attempts_made + 1))
      ↔ ((job.name ≡ order_confirmation_job) × ((n : ℕ) × (rate ≡ some (pos n)) × (random < n)))
unfolding process should_simulate_failure
process-fails rate random job = (
  λ h. (ground arith, drawn_below rate random (ground arith)),
  λ h. let (name, p) = h in let (n, set, below) = p in ground arith,
)
