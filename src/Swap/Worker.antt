-- ===== src/Swap/Worker.antt =====
-- `SwapService.processSwapJob` of marketBackend/src/services/swapService.ts, which
-- marketBackend/src/infra/queue/swapWorkerHandler.ts calls for each job. The bridge is a
-- parameter: its answer to a call follows from the swaps that it has carried out so far. So is the
-- configured signer key.
pub mod Runs
pub mod Retries
pub mod Balances
pub mod Completed
pub mod Requested
pub mod Local
pub mod Closed
use omen_backend.Base.{
  ℕ, ◌+◌, ◌⊎◌, inl, inr, Option, none, some, List, ◌∷◌, leb, if◌then◌else◌, Action, Done, pure,
  throw, gets, modify, catch, Error, app, sapphire_swap_failed, Bool, true, false, ◌>>=◌, ◌>>◌,
}
use omen_backend.Token.Store.{Token, find_token_by_id}
use omen_backend.Swap.Types.{
  queued, processing, completed, FailureReason, token_no_longer_available, contract_address_missing,
  signer_key_missing, error_thrown, SwapRecord, SwapJobPayload, is_open,
}
use omen_backend.Swap.Store.{
  SwapState, SwapTokensParams, on_ledger, update_swap_status, mark_swap_processing,
  mark_swap_completed, find_swap_by_id, publish_swap_event, swap_queued, swap_processing,
  swap_completed, insert_swap_audit, swap_done,
}
use omen_backend.Swap.Service.{settle_swap_balances, fail_swap}

-- The bridge carries nothing out and the client throws, or it carries the swap out and the client
-- throws all the same, while it waits for the transaction, or it has the id and the hash.
pub data BridgeAnswer : Type 0 where
  refused lost : BridgeAnswer
  confirmed : ℕ × ℕ → BridgeAnswer

abbrev pub Bridge : Type 0
Bridge = List SwapTokensParams → SwapTokensParams → BridgeAnswer

-- The swaps carried out after an answer.
abbrev pub carried : BridgeAnswer → SwapTokensParams → List SwapTokensParams → List SwapTokensParams
carried refused params sent = sent
carried lost params sent = params ∷ sent
carried (confirmed _) params sent = params ∷ sent

abbrev pub is_confirmed : BridgeAnswer → Bool
is_confirmed (confirmed _) = true
is_confirmed _ = false

-- What a job needs: the two addresses and the key.
pub record Prepared : Type 0 where
  pub source_address : ℕ
  pub target_address : ℕ
  pub key : ℕ

-- The three checks that fail a swap without a call of the bridge.
abbrev pub prepare : Option Token → Option Token → Option ℕ → FailureReason ⊎ Prepared
prepare (some source) (some target) key = elim source.contract_address [
  | none ↦ inl contract_address_missing
  | some a ↦ elim target.contract_address [
    | none ↦ inl contract_address_missing
    | some b ↦ elim key [
      | none ↦ inl signer_key_missing
      | some k ↦ inr (record { source_address = a; target_address = b; key = k })
    ]
  ]
]
prepare _ _ key = inl token_no_longer_available

abbrev pub params_of : SwapJobPayload → SwapRecord → Prepared → SwapTokensParams
params_of job swap p = record {
  source_token_address = p.source_address;
  target_token_address = p.target_address;
  amount = swap.source_amount;
  recipient = swap.destination_address;
  bridge_contract_address = swap.bridge_contract_address;
  target_chain_id = swap.target_chain;
  signer_private_key = p.key;
  min_target_amount = job.min_target_amount;
}

-- `SapphireTokenClient.swapTokens` of marketBackend/src/clients/sapphireTokenClient.ts.
unfoldable pub swap_tokens : Bridge → SwapTokensParams → Action SwapState (ℕ × ℕ)
swap_tokens bridge params = do
  sent ← gets (λ s. s.bridged)
  modify λ s. record s { bridged = carried (bridge sent params) params s.bridged }
  elim (bridge sent params) [
    | confirmed receipt ↦ pure receipt
    | _ ↦ throw (app 500 sapphire_swap_failed)
  ]

-- From settleBalances on.
unfoldable pub complete_swap : SwapRecord → ℕ → Action SwapState Done
complete_swap swap tx_hash = do
  on_ledger (
      settle_swap_balances swap.user_id swap.source_token_id swap.target_token_id swap.source_amount
        swap.expected_target_amount)
  mark_swap_completed swap.id (some tx_hash) swap.expected_target_amount
  insert_swap_audit swap.user_id swap_done swap.id
  publish_swap_event swap_completed swap.id completed

-- The body of `try`.
unfoldable pub execute_swap : Bridge → SwapRecord → SwapTokensParams → Action SwapState Done
execute_swap bridge swap params = do
  receipt ← swap_tokens bridge params
  mark_swap_processing swap.id (some receipt.0) (some receipt.1)
  complete_swap swap receipt.1

-- The body of `catch`.
unfoldable pub handle_failure : (attempts_made attempts id : ℕ) → Error → Action SwapState Done
handle_failure attempts_made attempts id error = do
  (if leb attempts (attempts_made + 1)
      then fail_swap id error_thrown
      else (update_swap_status id queued >> publish_swap_event swap_queued id queued))
  throw error

-- From markSwapProcessing on.
unfoldable pub start_swap :
    Bridge → (attempts_made attempts : ℕ) → SwapRecord → SwapTokensParams → Action SwapState Done
start_swap bridge attempts_made attempts swap params = do
  mark_swap_processing swap.id none none
  publish_swap_event swap_processing swap.id processing
  catch (execute_swap bridge swap params) (handle_failure attempts_made attempts swap.id)

-- An open swap.
unfoldable pub process_open :
    Bridge
    → Option ℕ
    → (attempts_made attempts : ℕ) → SwapJobPayload
    → SwapRecord
    → Action SwapState Done
process_open bridge key attempts_made attempts job swap = do
  source ← on_ledger (find_token_by_id swap.source_token_id)
  target ← on_ledger (find_token_by_id swap.target_token_id)
  elim (prepare source target key) [
    | inl reason ↦ fail_swap swap.id reason
    | inr p ↦ start_swap bridge attempts_made attempts swap (params_of job swap p)
  ]

-- `attempts` is `job.opts.attempts`; a missing swap and one that is no longer open are left alone.
unfoldable pub process_swap_job :
    Bridge → Option ℕ → (attempts_made attempts : ℕ) → SwapJobPayload → Action SwapState Done
process_swap_job bridge key attempts_made attempts job = do
  found ← find_swap_by_id job.swap_id
  elim found [
    | none ↦ pure tt
    | some swap ↦
        if is_open swap.status
        then process_open bridge key attempts_made attempts job swap
        else pure tt
  ]
