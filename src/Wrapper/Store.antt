-- ===== src/Wrapper/Store.antt =====
-- The types of marketBackend/src/types/wrapper.ts, and what the wrapper service keeps: the ledger,
-- its Redis keys and its queues. Dates but the expiry of a quote and metadata are left out.
use omen_backend.Base.{
  ℕ, ◌+◌, Bool, Option, some, List, ◌∷◌, ℤ, ◌==◌, if◌then◌else◌, Table, Action, Done, ok, gets,
  modify, zoom, pos_part, neg_part, ◌&&◌,
}
use omen_backend.Token.Store.{Ledger}

pub record WrapRequest : Type 0 where
  pub user_id : ℕ
  pub token_id : ℕ
  pub amount : ℤ
  pub destination_address : Option ℕ

pub record UnwrapRequest : Type 0 where
  pub user_id : ℕ
  pub usdc_amount : ℤ
  pub target_token_id : ℕ
  pub destination_address : Option ℕ

-- The rate in hundredths.
pub record WrapQuote : Type 0 where
  pub token_id : ℕ
  pub token_amount : ℤ
  pub usdc_amount : ℤ
  pub exchange_rate : ℕ
  pub platform_fee : ℤ
  pub network_fee : ℤ
  pub total_fee : ℤ
  pub expires_at : ℕ

pub data WrapStatus : Type 0 where
  pending processing completed failed cancelled : WrapStatus

-- A wrap or an unwrap.
pub record WrapTransaction : Type 0 where
  pub id : ℕ
  pub user_id : ℕ
  pub token_id : ℕ
  pub token_amount : ℤ
  pub usdc_amount : ℤ
  pub exchange_rate : ℕ
  pub status : WrapStatus

-- The jobs that wrapAsset adds to its queue.
pub record WrapJob : Type 0 where
  pub transaction_id : ℕ
  pub user_id : ℕ
  pub token_id : ℕ
  pub amount : ℤ
  pub destination_address : Option ℕ

pub record WrapState : Type 0 where
  pub ledger : Ledger
  -- The keys `wrap:quote:<token>:<amount>` and `wrap:transaction:<id>`.
  pub quotes : ℕ → ℤ → Option WrapQuote
  pub transactions : Table WrapTransaction
  pub wrap_jobs : List WrapJob
  pub next_id : ℕ

abbrev pub on_ledger : {A : Type 0} → Action Ledger A → Action WrapState A
on_ledger m = zoom (λ s. s.ledger) (λ w s. record s { ledger = w }) m

abbrev same_amount : ℤ → ℤ → Bool
same_amount a b = pos_part a == pos_part b && neg_part a == neg_part b

unfoldable pub cache_quote : WrapQuote → Action WrapState Done
cache_quote q = modify λ s. record s {
  quotes = λ t a. if t == q.token_id && same_amount a q.token_amount then some q else s.quotes t a;
}

unfoldable pub get_cached_transaction : ℕ → Action WrapState (Option WrapTransaction)
get_cached_transaction id = gets λ s. s.transactions id

-- A fresh id.
unfoldable pub generate_transaction_id : Action WrapState ℕ
generate_transaction_id s = (ok s.next_id, record s { next_id = s.next_id + 1 })

unfoldable pub add_wrap_job : WrapJob → Action WrapState Done
add_wrap_job job = modify λ s. record s { wrap_jobs = job ∷ s.wrap_jobs }
