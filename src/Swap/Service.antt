-- ===== src/Swap/Service.antt =====
-- The class `SwapService` of marketBackend/src/services/swapService.ts: the requests, and what
-- processSwapJob is made of.
pub mod Requests
pub mod Outcome
use omen_backend.Base.{
  ℕ, Bool, false, ◌||◌, ◌==◌, Option, none, some, ℤ, pos, ◌+ℤ◌, ◌-ℤ◌, leb_ℤ, Action, Done, pure,
  throw_if, or_throw, catch, ◌>>=◌, ◌>>◌, app, swap_identical_tokens, swap_invalid_amount,
  token_contract_missing, swap_insufficient_balance,
}
use omen_backend.Token.Store.{Ledger, Token, find_user_balance}
use omen_backend.Token.Service.{
  verify_compliance, get_user_balance, is_short, lock_balance_for_order, unlock_balance_from_order,
  update_balance_internal,
}
use omen_backend.Token.Balances.{available, locked}
use omen_backend.Swap.Types.{
  queued, failed, SwapQuote, CreateSwapInput, FailureReason, SwapRecord, SwapJobPayload,
}
use omen_backend.Swap.Store.{
  SwapState, on_ledger, create_swap_request, update_swap_status, mark_swap_failed, find_swap_by_id,
  publish_swap_event, swap_requested, swap_failed, insert_swap_audit, swap_request_created,
  swap_gave_up, add_swap_job,
}
use omen_backend.Swap.Quote.{build_quote, both_tokens}

-- `input.minTargetAmount && BigInt(input.minTargetAmount) <= BigInt(0)`.
abbrev pub is_bad_minimum : Option ℤ → Bool
is_bad_minimum none = false
is_bad_minimum (some m) = leb_ℤ m (pos 0)

unfoldable pub validate_swap_input : CreateSwapInput → Action SwapState Done
validate_swap_input input = do
  throw_if (input.source_token_id == input.target_token_id) (app 400 swap_identical_tokens)
  throw_if (leb_ℤ input.source_amount (pos 0) || is_bad_minimum input.min_target_amount)
      (app 400 swap_invalid_amount)

-- Whatever verifyCompliance throws is only logged.
unfoldable pub ensure_compliance_if_required : ℕ → ℕ → Action SwapState Done
ensure_compliance_if_required u t = on_ledger (catch (verify_compliance u t) λ _. pure tt)

unfoldable pub ensure_sufficient_balance : ℕ → ℕ → ℤ → Action SwapState Done
ensure_sufficient_balance u t amount = do
  balance ← on_ledger (get_user_balance u t)
  throw_if (is_short balance amount) (app 400 swap_insufficient_balance)

-- `input.quote || (await this.buildQuote(...))`.
unfoldable pub quote_for : CreateSwapInput → Token → Token → Action SwapState SwapQuote
unfolding build_quote
quote_for input source target = elim input.quote [
  | some quote ↦ pure quote
  | none ↦ build_quote source target input.source_amount
]

abbrev pub job_of : CreateSwapInput → SwapRecord → Token → Token → SwapJobPayload
job_of input swap source target = record {
  swap_id = swap.id;
  user_id = input.user_id;
  source_token_id = source.id;
  target_token_id = target.id;
  source_chain = input.source_chain;
  target_chain = input.target_chain;
  source_amount = input.source_amount;
  min_target_amount = input.min_target_amount;
  destination_address = input.destination_address;
  bridge_contract_address = input.bridge_contract_address;
}

-- From createSwapRequest on.
unfoldable pub record_request :
    CreateSwapInput → Token → Token → SwapQuote → Action SwapState SwapRecord
record_request input source target quote = do
  swap ← create_swap_request (record input { quote = some quote })
  add_swap_job (job_of input swap source target)
  queued_swap ← update_swap_status swap.id queued
  insert_swap_audit input.user_id swap_request_created swap.id
  publish_swap_event swap_requested swap.id queued
  pure queued_swap

-- From the balance check on.
unfoldable pub lock_and_record : CreateSwapInput → Token → Token → Action SwapState SwapRecord
lock_and_record input source target = do
  ensure_sufficient_balance input.user_id source.id input.source_amount
  on_ledger (lock_balance_for_order input.user_id source.id input.source_amount)
  quote ← quote_for input source target
  record_request input source target quote

unfoldable pub request_swap : CreateSwapInput → Action SwapState SwapRecord
request_swap input = do
  validate_swap_input input
  (source, target) ← both_tokens input.source_token_id input.target_token_id
  or_throw source.contract_address (app 400 token_contract_missing)
  or_throw target.contract_address (app 400 token_contract_missing)
  ensure_compliance_if_required input.user_id source.id
  ensure_compliance_if_required input.user_id target.id
  lock_and_record input source target

unfoldable pub get_swap_by_id : ℕ → Action SwapState (Option SwapRecord)
get_swap_by_id id = find_swap_by_id id

-- The source side of settleBalances: nothing is done without a row.
unfoldable pub take_source : ℕ → ℕ → ℤ → Action Ledger Done
take_source u t amount = do
  balance ← find_user_balance u t
  elim balance [
    | none ↦ pure tt
    | some b ↦
        update_balance_internal u t (pos b.available_balance) (pos b.locked_balance -ℤ amount)
        >> pure tt
  ]

unfoldable pub credit_target : ℕ → ℕ → ℤ → Action Ledger Done
credit_target u t amount = do
  balance ← find_user_balance u t
  update_balance_internal u t (pos (available balance) +ℤ amount) (pos (locked balance))
  pure tt

unfoldable pub settle_swap_balances :
    (user source target : ℕ) (source_amount target_amount : ℤ) → Action Ledger Done
settle_swap_balances u source target source_amount target_amount = do
  take_source u source source_amount
  credit_target u target target_amount

-- `handling` is UnlockSourceBalance in every call; what the unlock throws is only logged.
unfoldable pub fail_swap : ℕ → FailureReason → Action SwapState Done
fail_swap id reason = do
  swap ← mark_swap_failed id reason
  catch
      (on_ledger (unlock_balance_from_order swap.user_id swap.source_token_id swap.source_amount)
        >> pure tt)
      λ _. pure tt
  insert_swap_audit swap.user_id swap_gave_up swap.id
  publish_swap_event swap_failed swap.id failed
