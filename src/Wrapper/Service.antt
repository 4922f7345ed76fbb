-- ===== src/Wrapper/Service.antt =====
-- The class `WrapperService` of marketBackend/src/services/wrapperService.ts. Its calls of Sapphire
-- are placeholders that compute their answer.
use omen_backend.Base.{
  ℕ, ◌+◌, ◌*◌, not, Option, ℤ, pos, ◌+ℤ◌, ◌*ℤ◌, quot, Action, pure, throw, gets, throw_if, or_throw,
  ◌>>=◌, ◌>>◌, app, token_not_found, invalid_token_type, insufficient_balance, usdc_not_configured,
}
use omen_backend.Token.Store.{Token, find_token_by_id, find_user_balance, lock_balance}
use omen_backend.Token.Service.{is_rwa, is_short}
use omen_backend.Wrapper.Store.{
  WrapRequest, UnwrapRequest, WrapQuote, WrapTransaction, WrapState, on_ledger, cache_quote,
  get_cached_transaction, generate_transaction_id, add_wrap_job,
}

-- '100.00'.
abbrev pub exchange_rate : ℕ
exchange_rate = 10_000

unfoldable pub calculate_usdc_amount : ℤ → ℕ → ℤ
calculate_usdc_amount amount rate = quot (amount *ℤ pos rate) 100

unfoldable pub calculate_token_amount : ℤ → ℕ → ℤ
calculate_token_amount amount rate = quot (amount *ℤ pos 100) rate

abbrev pub wrap_platform_fee : ℤ → ℤ
wrap_platform_fee amount = quot (amount *ℤ pos 50) 10_000

-- The checks that every operation starts with.
unfoldable pub find_wrappable : ℕ → Action WrapState Token
find_wrappable id = do
  found ← on_ledger (find_token_by_id id)
  token ← or_throw found (app 404 token_not_found)
  throw_if (not (is_rwa token.token_type)) (app 400 invalid_token_type)
  pure token

-- A quote with its fees, which calculateFees takes from the USDC amount, and its expiry.
unfoldable pub quote_amounts : ℕ → (token_amount usdc_amount : ℤ) → Action WrapState WrapQuote
quote_amounts id token_amount usdc_amount = do
  now ← gets (λ s. s.ledger.now)
  let quote : WrapQuote = record {
    token_id = id;
    token_amount = token_amount;
    usdc_amount = usdc_amount;
    exchange_rate = exchange_rate;
    platform_fee = wrap_platform_fee usdc_amount;
    network_fee = pos 1_000_000;
    total_fee = wrap_platform_fee usdc_amount +ℤ pos 1_000_000;
    expires_at = now + 5 * 60 * 1000;
  }
  cache_quote quote
  pure quote

unfoldable pub get_wrap_quote : ℕ → ℤ → Action WrapState WrapQuote
get_wrap_quote id amount = do
  find_wrappable id
  quote_amounts id amount (calculate_usdc_amount amount exchange_rate)

unfoldable pub get_unwrap_quote : ℕ → ℤ → Action WrapState WrapQuote
get_unwrap_quote id usdc_amount = do
  find_wrappable id
  quote_amounts id (calculate_token_amount usdc_amount exchange_rate) usdc_amount

-- The row is read, and locked, past the token service and its cache.
unfoldable pub wrap_asset : WrapRequest → Action WrapState ℕ
wrap_asset request = do
  find_wrappable request.token_id
  balance ← on_ledger (find_user_balance request.user_id request.token_id)
  throw_if (is_short balance request.amount) (app 400 insufficient_balance)
  on_ledger (lock_balance request.user_id request.token_id request.amount)
  id ← generate_transaction_id
  add_wrap_job (record {
    transaction_id = id;
    user_id = request.user_id;
    token_id = request.token_id;
    amount = request.amount;
    destination_address = request.destination_address;
  })
  pure id

-- `getUsdcToken` always throws, so that nothing follows it.
unfoldable pub unwrap_asset : UnwrapRequest → Action WrapState ℕ
unwrap_asset request = do
  find_wrappable request.target_token_id
  throw (app 500 usdc_not_configured)

unfoldable pub get_transaction_status : ℕ → Action WrapState (Option WrapTransaction)
get_transaction_status id = get_cached_transaction id

-- The answers of the placeholders: a fresh id and the amount at the fixed rate.
unfoldable pub execute_sapphire_wrap : ℤ → Action WrapState (ℕ × ℤ)
execute_sapphire_wrap amount = do
  id ← generate_transaction_id
  pure (id, calculate_usdc_amount amount exchange_rate)

unfoldable pub execute_sapphire_unwrap : ℤ → Action WrapState (ℕ × ℤ)
execute_sapphire_unwrap usdc_amount = do
  id ← generate_transaction_id
  pure (id, calculate_token_amount usdc_amount exchange_rate)
