-- ===== src/Tests/Transactions.antt =====
-- Transactions whose job fails and then goes through, and one whose worker is early.
use omen_backend.Base.{◌≡◌, refl, none, some, [], ◌∷◌, ok, ◌==◌, if◌then◌else◌, arith}
use omen_backend.Transaction.Store.{
  in_progress, confirmed, approve, TransactionRecord, TransactionJobPayload, TransactionJob,
  TransactionState,
}
use omen_backend.Transaction.Manager.{simulated_tx_hash, enqueue_transaction, attempt_job}
use omen_backend.Transaction.Attempts.{
  HasRow, after_failures, row_before, confirmed_row, dropped_row, attempts-outcome,
}
use omen_backend.Transaction.Races.{new_row, job_for, enqueue_transaction-races}

abbrev approval_call : TransactionJobPayload
approval_call = record { market_id = 4; action = approve; calldata = 90 }

abbrev call_job : TransactionJob
call_job = record { data_of = approval_call; transaction_id = 7 }

abbrev call_row : TransactionRecord
call_row = record {
  id = 7;
  market_id = 4;
  job_id = 0;
  status = in_progress;
  tx_hash = none;
  error_reason = none;
}

abbrev one_call : TransactionState
one_call = record {
  markets = λ m. m == 4;
  transactions = λ i. if i == 7 then some call_row else none;
  jobs = call_job ∷ [];
  dead_letters = [];
  next_id = 8;
}

attempts-outcome_example :
    HasRow call_job
      (confirmed_row call_job (row_before 2 call_row))
      []
      (attempt_job 2 5 (some 91) call_job (after_failures 2 5 call_job one_call)).1
    × HasRow call_job (dropped_row call_row) (call_job ∷ []) (after_failures 5 5 call_job one_call)
attempts-outcome_example = attempts-outcome call_job call_row one_call 5 2 91 refl (omega arith)

enqueue_transaction-races_example :
    let job = job_for approval_call one_call in
    let row = new_row approval_call one_call in
    let early =
      enqueue_transaction (λ w. (attempt_job 0 5 (some 91) job w).1) approval_call one_call in
    let (r, queued) = enqueue_transaction (λ w. w) approval_call one_call in
    let late = attempt_job 0 5 (some 91) job queued in
    (early.0 ≡ ok row)
    × (early.1.transactions 8
        ≡ some (record row { status = in_progress; tx_hash = some (simulated_tx_hash 8) }))
    × (early.1.dead_letters ≡ [])
    × (r ≡ ok row)
    × (queued.jobs ≡ job ∷ call_job ∷ [])
    × (late.1.transactions 8
        ≡ some (record row { status = confirmed; tx_hash = some (simulated_tx_hash 8) }))
enqueue_transaction-races_example = enqueue_transaction-races approval_call one_call 5 91 refl
