-- ===== src/Transaction/Store.antt =====
-- The types of marketBackend/src/types/transaction.ts, and the table `transactions` with the queries
-- of marketBackend/src/infra/database/repositories/transactionRepository.ts, beside the two queues
-- of the manager. Dates are left out, and the metadata of a job but for the id of the transaction.
use omen_backend.Base.{
  coalesce, ℕ, ◌+◌, Bool, Option, none, some, List, ◌∷◌, if◌then◌else◌, Table, insert, Action, Done,
  ok, err, gets, modify, Error, foreign_key, transaction_row_missing,
}
use omen_backend.Market.Service.{or_default}

pub data TransactionStatus : Type 0 where
  pending in_progress confirmed failed dropped : TransactionStatus

-- The message of an error stands as the error.
pub record TransactionRecord : Type 0 where
  pub id : ℕ
  pub market_id : ℕ
  pub job_id : ℕ
  pub status : TransactionStatus
  pub tx_hash : Option ℕ
  pub error_reason : Option Error

pub data TransactionAction : Type 0 where
  register approve reject pause activate : TransactionAction

pub record TransactionJobPayload : Type 0 where
  pub market_id : ℕ
  pub action : TransactionAction
  pub calldata : ℕ

-- A job of the queue, whose metadata has the id of the transaction.
pub record TransactionJob : Type 0 where
  pub data_of : TransactionJobPayload
  pub transaction_id : ℕ

pub record TransactionState : Type 0 where
  -- Whether there is a market with the id.
  pub markets : ℕ → Bool
  pub transactions : Table TransactionRecord
  pub jobs : List TransactionJob
  pub dead_letters : List TransactionJob
  pub next_id : ℕ

pub record CreateTransactionInput : Type 0 where
  pub market_id : ℕ
  pub status : TransactionStatus
  pub job_id : Option ℕ

abbrev pub put_row : ℕ → TransactionRecord → TransactionState → TransactionState
put_row id r s = record s { transactions = insert id r s.transactions }

abbrev pub created : CreateTransactionInput → ℕ → TransactionRecord
created input new = record {
  id = new;
  market_id = input.market_id;
  job_id = or_default input.job_id new;
  status = input.status;
  tx_hash = none;
  error_reason = none;
}

unfoldable pub create_transaction :
    CreateTransactionInput → Action TransactionState TransactionRecord
create_transaction input s =
    if s.markets input.market_id
    then (
      ok (created input s.next_id),
      record s {
        transactions = insert s.next_id (created input s.next_id) s.transactions;
        next_id = s.next_id + 1;
      },
    )
    else (err foreign_key, s)

abbrev pub updated :
    TransactionStatus → Option ℕ → Option Error → TransactionRecord → TransactionRecord
updated status tx_hash error_reason r = record r {
  status = status;
  tx_hash = coalesce tx_hash r.tx_hash;
  error_reason = coalesce error_reason r.error_reason;
}

unfoldable pub update_transaction_status :
    ℕ → TransactionStatus → Option ℕ → Option Error → Action TransactionState TransactionRecord
update_transaction_status id status tx_hash error_reason s = elim (s.transactions id) [
  | none ↦ (err transaction_row_missing, s)
  | some r ↦ (
    ok (updated status tx_hash error_reason r),
    put_row id (updated status tx_hash error_reason r) s,
  )
]

unfoldable pub find_transaction_by_id : ℕ → Action TransactionState (Option TransactionRecord)
find_transaction_by_id id = gets λ s. s.transactions id

unfoldable pub add_transaction_job : TransactionJob → Action TransactionState Done
add_transaction_job job = modify λ s. record s { jobs = job ∷ s.jobs }

unfoldable pub add_dead_letter : TransactionJob → Action TransactionState Done
add_dead_letter job = modify λ s. record s { dead_letters = job ∷ s.dead_letters }
