-- ===== src/Tests/Wraps.antt =====
-- A wrap of 300 of the 500 that user 1 has of token 10.
use omen_backend.Base.{◌≡◌, refl, none, some, [], ◌∷◌, pos, ok, arith}
use omen_backend.Token.Store.{UserBalance, write_balance, update_balance}
use omen_backend.Token.Service.{
  get_user_balance, update_balance_internal, publish_balance, cache_balance,
}
use omen_backend.Wrapper.Store.{WrapRequest, WrapState}
use omen_backend.Wrapper.Service.{wrap_asset}
use omen_backend.Wrapper.Outcome.{wrapped_row, wrap_job, wrap_asset-stale}
use omen_backend.Tests.Data.{sellers_row, security}

abbrev request : WrapRequest
request = record { user_id = 1; token_id = 10; amount = pos 300; destination_address = none }

abbrev before_wrap : WrapState
before_wrap = record {
  ledger = sellers_row;
  quotes = λ t a. none;
  transactions = λ i. none;
  wrap_jobs = [];
  next_id = 80;
}

abbrev old_row : UserBalance
old_row = record { user_id = 1; token_id = 10; available_balance = 500; locked_balance = 3000 }

wrap_asset-stale_example :
    let (r, s') = wrap_asset request before_wrap in
    (r ≡ ok 80)
    × (s'.wrap_jobs ≡ wrap_job request 80 ∷ [])
    × (s'.ledger.balances 1 10 ≡ some (wrapped_row 1 10 300 old_row))
    × ((get_user_balance 1 10 s'.ledger).0 ≡ ok (some old_row))
unfolding update_balance_internal update_balance write_balance publish_balance cache_balance
wrap_asset-stale_example =
    wrap_asset-stale request 299 security old_row before_wrap refl refl refl refl (omega arith)
