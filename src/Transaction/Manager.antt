-- ===== src/Transaction/Manager.antt =====
-- `TransactionManager` of marketBackend/src/services/transactionManager.ts. Its worker, which may run
-- in another process, is a parameter of enqueueTransaction: what it does once the job is in the
-- queue. What `encryptCalldata` answers is a parameter of an attempt; it throws (`none`) where the
-- Sapphire runtime cannot be had.
use omen_backend.Base.{
  ℕ, ◌+◌, Option, none, some, leb, if◌then◌else◌, Action, Done, pure, throw, modify, catch, when,
  or_throw, Error, app, transaction_failed, external, ◌>>=◌, ◌>>◌,
}
use omen_backend.Transaction.Store.{
  pending, in_progress, confirmed, failed, dropped, TransactionRecord, TransactionJobPayload,
  TransactionJob, TransactionState, create_transaction, update_transaction_status,
  find_transaction_by_id, add_transaction_job, add_dead_letter,
}

-- The text ''.
abbrev pub no_job : ℕ
no_job = 0

-- The text `0x<id>`: a text is a number that is only compared.
abbrev pub simulated_tx_hash : ℕ → ℕ
simulated_tx_hash id = id

unfoldable pub enqueue_transaction :
    (worker : TransactionState → TransactionState)
    → TransactionJobPayload
    → Action TransactionState TransactionRecord
enqueue_transaction worker payload = do
  row ←
      create_transaction
        (record { market_id = payload.market_id; status = pending; job_id = some no_job })
  add_transaction_job (record { data_of = payload; transaction_id = row.id })
  modify worker
  update_transaction_status row.id in_progress none none
  pure row

unfoldable pub get_transaction : ℕ → Action TransactionState (Option TransactionRecord)
get_transaction id = find_transaction_by_id id

unfoldable pub process_job : (encrypted : Option ℕ) → TransactionJob → Action TransactionState Done
process_job encrypted job =
    catch
      (do
        calldata ← or_throw encrypted external
        update_transaction_status job.transaction_id confirmed
            (some (simulated_tx_hash job.transaction_id)) none
        pure tt)
      (λ e. throw (app 500 transaction_failed))

-- The listener of 'failed'; `made` counts the attempt that failed.
unfoldable pub on_failed :
    (made attempts : ℕ) → TransactionJob → Error → Action TransactionState Done
on_failed made attempts job error = do
  update_transaction_status job.transaction_id (if leb attempts made then dropped else failed) none
      (some error)
  when (leb attempts made) (add_dead_letter job)

-- One attempt_job, with the listener's answer to a throw, where `before` attempts were made.
unfoldable pub attempt_job :
    (before attempts : ℕ) → (encrypted : Option ℕ) → TransactionJob → Action TransactionState Done
attempt_job before attempts encrypted job =
    catch (process_job encrypted job) (on_failed (before + 1) attempts job)
