-- ===== src/Transaction/Attempts.antt =====
-- The attempts of one job of marketBackend/src/services/transactionManager.ts: BullMQ starts them
-- with 0, 1, 2, … made, up to the configured number.
use omen_backend.Base.{
  ℕ, zero, suc, ◌≤◌, ◌<◌, ◌≡◌, refl, none, some, List, ◌∷◌, Error, app, transaction_failed, arith,
}
use omen_backend.Transaction.Store.{
  confirmed, failed, dropped, TransactionRecord, TransactionJob, TransactionState, updated,
  update_transaction_status, add_dead_letter,
}
use omen_backend.Transaction.Manager.{simulated_tx_hash, process_job, on_failed, attempt_job}

abbrev pub failure : Error
failure = app 500 transaction_failed

-- The state after `n` attempts that throw.
abbrev pub after_failures : (n attempts : ℕ) → TransactionJob → TransactionState → TransactionState
after_failures zero attempts job s = s
after_failures (suc n) attempts job s =
    (attempt_job n attempts none job (after_failures n attempts job s)).1

-- The row of the job, and the queue of jobs that were given up.
abbrev pub HasRow :
    TransactionJob → TransactionRecord → List TransactionJob → TransactionState → Type 0
HasRow job r dead s = (s.transactions job.transaction_id ≡ some r) × (s.dead_letters ≡ dead)

abbrev failed_row : TransactionRecord → TransactionRecord
failed_row r = updated failed none (some failure) r

abbrev pub dropped_row : TransactionRecord → TransactionRecord
dropped_row r = updated dropped none (some failure) r

abbrev pub confirmed_row : TransactionJob → TransactionRecord → TransactionRecord
confirmed_row job r = updated confirmed (some (simulated_tx_hash job.transaction_id)) none r

-- The row before an attempt that follows `n` attempts that threw.
abbrev pub row_before : ℕ → TransactionRecord → TransactionRecord
row_before zero r = r
row_before (suc n) r = failed_row r

module _ (attempts : ℕ) (job : TransactionJob) where
  fails-HasRow :
      (n : ℕ) (r : TransactionRecord) (dead : List TransactionJob) (s : TransactionState)
      → HasRow job r dead s
      → suc n < attempts
      → HasRow job (failed_row r) dead (attempt_job n attempts none job s).1
  unfolding attempt_job process_job on_failed update_transaction_status
  fails-HasRow n r dead s (row, kept) more = ground arith

  gives_up-HasRow :
      (n : ℕ) (r : TransactionRecord) (dead : List TransactionJob) (s : TransactionState)
      → HasRow job r dead s
      → attempts ≤ suc n
      → HasRow job (dropped_row r) (job ∷ dead) (attempt_job n attempts none job s).1
  unfolding attempt_job process_job on_failed update_transaction_status add_dead_letter
  gives_up-HasRow n r dead s (row, kept) last = ground arith

  pub confirms-HasRow :
      (n c : ℕ) (r : TransactionRecord) (dead : List TransactionJob) (s : TransactionState)
      → HasRow job r dead s
      → HasRow job (confirmed_row job r) dead (attempt_job n attempts (some c) job s).1
  unfolding attempt_job process_job update_transaction_status
  confirms-HasRow n c r dead s (row, kept) = ground arith

-- Attempts that throw, each with another left, leave the row failed, once for all of them.
failures-HasRow :
    (job : TransactionJob) (r : TransactionRecord) (dead : List TransactionJob)
    (s : TransactionState) (attempts n : ℕ)
    → HasRow job r dead s
    → suc n < attempts
    → HasRow job (failed_row r) dead (after_failures (suc n) attempts job s)
failures-HasRow job r dead s attempts zero h more = fails-HasRow attempts job zero r dead s h more
failures-HasRow job r dead s attempts (suc n) h more =
    fails-HasRow attempts job (suc n) (failed_row r) dead (after_failures (suc n) attempts job s)
      (failures-HasRow job r dead s attempts n h (omega arith)) more

confirms :
    (job : TransactionJob) (r : TransactionRecord) (s : TransactionState) (attempts n c : ℕ)
    → s.transactions job.transaction_id ≡ some r
    → n < attempts
    → HasRow job
        (confirmed_row job (row_before n r))
        s.dead_letters
        (attempt_job n attempts (some c) job (after_failures n attempts job s)).1
confirms job r s attempts zero c row less =
    confirms-HasRow attempts job zero c r s.dead_letters s (row, refl)
confirms job r s attempts (suc n) c row less =
    confirms-HasRow attempts job (suc n) c (failed_row r) s.dead_letters
      (after_failures (suc n) attempts job s)
      (failures-HasRow job r s.dead_letters s attempts n (row, refl) less)

drops :
    (job : TransactionJob) (r : TransactionRecord) (s : TransactionState) (attempts k : ℕ)
    → s.transactions job.transaction_id ≡ some r
    → k ≡ attempts
    → 0 < k
    → HasRow job (dropped_row r) (job ∷ s.dead_letters) (after_failures k attempts job s)
drops job r s attempts zero row h less = absurd (omega arith)
drops job r s attempts (suc zero) row h less =
    gives_up-HasRow attempts job zero r s.dead_letters s (row, refl) (omega arith)
drops job r s attempts (suc (suc n)) row h less =
    gives_up-HasRow attempts job (suc n) (failed_row r) s.dead_letters
      (after_failures (suc n) attempts job s)
      (failures-HasRow job r s.dead_letters s attempts n (row, refl) (omega arith)) (omega arith)

-- A job whose transaction is recorded ends within the configured number of attempts. If an attempt
-- encrypts the call data, after fewer than that number that could not, the transaction is
-- confirmed under the hash of its job, with the reason of the failures before it left in place,
-- and no job is given up. If every attempt fails, the transaction is dropped with the failure as
-- its reason and the hash that it had, and its job is added once to the dead letters.
pub attempts-outcome :
    (job : TransactionJob) (r : TransactionRecord) (s : TransactionState) (attempts n c : ℕ)
    → s.transactions job.transaction_id ≡ some r
    → n < attempts
    → HasRow job
        (confirmed_row job (row_before n r))
        s.dead_letters
        (attempt_job n attempts (some c) job (after_failures n attempts job s)).1
      × HasRow job (dropped_row r) (job ∷ s.dead_letters) (after_failures attempts attempts job s)
attempts-outcome job r s attempts n c row less =
    (confirms job r s attempts n c row less, drops job r s attempts attempts row refl (omega arith))
