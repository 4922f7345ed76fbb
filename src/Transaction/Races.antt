-- ===== src/Transaction/Races.antt =====
-- The order of the two processes that write a transaction in
-- marketBackend/src/services/transactionManager.ts: enqueueTransaction sets the status to
-- in_progress after the job is in the queue.
use omen_backend.Base.{ℕ, ◌+◌, ◌≡◌, refl, true, none, some, ◌∷◌, insert, ok, pure, ◌>>◌, arith}
use omen_backend.Transaction.Store.{
  pending, in_progress, confirmed, TransactionRecord, TransactionJobPayload, TransactionJob,
  TransactionState, put_row, create_transaction, update_transaction_status, add_transaction_job,
  created,
}
use omen_backend.Transaction.Manager.{no_job, simulated_tx_hash, enqueue_transaction, attempt_job}
use omen_backend.Transaction.Attempts.{confirmed_row, confirms-HasRow}

abbrev pub job_for : TransactionJobPayload → TransactionState → TransactionJob
job_for payload s = record { data_of = payload; transaction_id = s.next_id }

abbrev pub new_row : TransactionJobPayload → TransactionState → TransactionRecord
new_row payload s =
    created (record { market_id = payload.market_id; status = pending; job_id = some no_job })
      s.next_id

-- The state in which the worker may take the job.
abbrev waiting : TransactionJobPayload → TransactionState → TransactionState
waiting payload s = record s {
  transactions = insert s.next_id (new_row payload s) s.transactions;
  jobs = job_for payload s ∷ s.jobs;
  next_id = s.next_id + 1;
}

waiting-row :
    (payload : TransactionJobPayload) (s : TransactionState)
    → (waiting payload s).transactions s.next_id ≡ some (new_row payload s)
waiting-row payload s = ground arith

creates :
    (payload : TransactionJobPayload) (s : TransactionState)
    → s.markets payload.market_id ≡ true
    → create_transaction
        (record { market_id = payload.market_id; status = pending; job_id = some no_job })
        s
      ≡ (
        ok (new_row payload s),
        record s {
          transactions = insert s.next_id (new_row payload s) s.transactions;
          next_id = s.next_id + 1;
        },
      )
unfolding create_transaction
creates payload s known = ground (arith, known)

starts :
    (row r : TransactionRecord) (s : TransactionState)
    → s.transactions row.id ≡ some r
    → (update_transaction_status row.id in_progress none none >> pure row) s
      ≡ (ok row, put_row row.id (record r { status = in_progress }) s)
unfolding update_transaction_status
starts row r s h = ground (arith, h)

-- What enqueueTransaction makes of a worker that leaves the row there.
enqueues :
    (worker : TransactionState → TransactionState) (payload : TransactionJobPayload)
    (r : TransactionRecord) (s : TransactionState)
    → s.markets payload.market_id ≡ true
    → (worker (waiting payload s)).transactions s.next_id ≡ some r
    → enqueue_transaction worker payload s ≡ (
      ok (new_row payload s),
      put_row s.next_id (record r { status = in_progress }) (worker (waiting payload s)),
    )
unfolding enqueue_transaction add_transaction_job
enqueues worker payload r s known h =
    ground
      (arith, creates payload s known, starts (new_row payload s) r (worker (waiting payload s)) h)

-- A transaction of a market that exists is enqueued as pending under a job id that stays empty. If
-- the worker carries out its job before enqueueTransaction goes on, then the confirmation is lost:
-- the transaction has its hash, is in progress and has no dead letter. If the worker carries it
-- out later, the transaction is confirmed.
pub enqueue_transaction-races :
    (payload : TransactionJobPayload) (s : TransactionState) (attempts c : ℕ)
    → s.markets payload.market_id ≡ true
    → let job = job_for payload s in
      let row = new_row payload s in
      let early = enqueue_transaction (λ w. (attempt_job 0 attempts (some c) job w).1) payload s in
      let (r, queued) = enqueue_transaction (λ w. w) payload s in
      let late = attempt_job 0 attempts (some c) job queued in
      (early.0 ≡ ok row)
      × (early.1.transactions s.next_id
          ≡ some
              (record row { status = in_progress; tx_hash = some (simulated_tx_hash s.next_id) }))
      × (early.1.dead_letters ≡ s.dead_letters)
      × (r ≡ ok row)
      × (queued.jobs ≡ job ∷ s.jobs)
      × (late.1.transactions s.next_id
          ≡ some (record row { status = confirmed; tx_hash = some (simulated_tx_hash s.next_id) }))
enqueue_transaction-races payload s attempts c known =
    let job = job_for payload s in
    let w = waiting payload s in
    let row = new_row payload s in
    let recorded : w.transactions s.next_id ≡ some row = waiting-row payload s in
    let (row_early, dead_early) =
      confirms-HasRow attempts job 0 c row s.dead_letters w (recorded, refl) in
    let (row_late, dead_late) =
      confirms-HasRow attempts job 0 c (record row { status = in_progress }) s.dead_letters
        (put_row s.next_id (record row { status = in_progress }) w) (ground arith, refl) in
    rw
      (
        enqueues (λ x. (attempt_job 0 attempts (some c) job x).1) payload (confirmed_row job row) s
            known row_early,
        enqueues (λ x. x) payload row s known recorded,
      )
      (refl, ground arith, dead_early, refl, refl, row_late)
