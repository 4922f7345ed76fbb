-- ===== src/Swap/Quote.antt =====
-- The quotes of `SwapService` in marketBackend/src/services/swapService.ts: buildQuote,
-- convertAmount, estimateRate and generateQuote.
pub mod Laws
use omen_backend.Base.{
  ℕ, ◌+◌, ◌-◌, ◌*◌, ◌^◌, Bool, true, false, ◌||◌, ℤ, pos, ◌+ℤ◌, ◌-ℤ◌, ◌*ℤ◌, quot, leb_ℤ, ltb, ◌==◌,
  if◌then◌else◌, Action, pure, gets, throw_if, or_throw, ◌>>=◌, ◌>>◌, app, swap_token_not_found,
  swap_invalid_amount, swap_amount_below_fees,
}
use omen_backend.Token.Store.{Token, TokenType, stable, find_token_by_id}
use omen_backend.Swap.Types.{SwapQuote}
use omen_backend.Swap.Store.{SwapState, on_ledger}

abbrev pub platform_fee_of : ℤ → ℤ
platform_fee_of amount = quot (amount *ℤ pos 25) 10_000

abbrev pub bridge_fee_of : ℤ → ℤ
bridge_fee_of amount = quot (amount *ℤ pos 15) 10_000

abbrev pub total_fee_of : ℤ → ℤ
total_fee_of amount = platform_fee_of amount +ℤ bridge_fee_of amount +ℤ pos 1000

unfoldable pub convert_amount : ℤ → ℕ → ℕ → ℤ
convert_amount amount source_decimals target_decimals =
    if source_decimals == target_decimals
    then amount
    else if ltb target_decimals source_decimals
    then quot amount (10 ^ (source_decimals - target_decimals))
    else amount *ℤ pos (10 ^ (target_decimals - source_decimals))

abbrev is_stable : TokenType → Bool
is_stable stable = true
is_stable _ = false

-- '1.0000', '0.9990' or '1.0200', in ten-thousandths.
unfoldable pub estimate_rate : Token → Token → ℕ
estimate_rate source target =
    if source.blockchain == target.blockchain
    then 10_000
    else if is_stable source.token_type || is_stable target.token_type
    then 9990
    else 10_200

unfoldable pub build_quote : Token → Token → ℤ → Action SwapState SwapQuote
unfolding convert_amount estimate_rate
build_quote source target amount = do
  throw_if (leb_ℤ amount (pos 0)) (app 400 swap_invalid_amount)
  let total_fee = total_fee_of amount
  throw_if (leb_ℤ amount total_fee) (app 400 swap_amount_below_fees)
  now ← gets (λ s. s.ledger.now)
  pure (record {
    source_token_id = source.id;
    target_token_id = target.id;
    source_amount = amount;
    expected_target_amount = convert_amount (amount -ℤ total_fee) source.decimals target.decimals;
    rate = estimate_rate source target;
    expires_at = now + 5 * 60 * 1000;
    platform_fee = platform_fee_of amount;
    bridge_fee = bridge_fee_of amount;
    network_fee = pos 1000;
    total_fee = total_fee;
  })

-- Both tokens, or the error that one of them is missing.
unfoldable pub both_tokens : ℕ → ℕ → Action SwapState (Token × Token)
both_tokens source target = do
  found_source ← on_ledger (find_token_by_id source)
  found_target ← on_ledger (find_token_by_id target)
  s ← or_throw found_source (app 404 swap_token_not_found)
  t ← or_throw found_target (app 404 swap_token_not_found)
  pure (s, t)

unfoldable pub generate_quote : ℕ → ℕ → ℤ → Action SwapState SwapQuote
generate_quote source target amount = do
  tokens ← both_tokens source target
  build_quote tokens.0 tokens.1 amount
