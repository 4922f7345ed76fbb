-- ===== src/Swap/Worker/Local.antt =====
-- What the requests and the jobs keep, method by method, of
-- marketBackend/src/services/swapService.ts.
use omen_backend.Base.{ℕ, ◌≡◌, ◌⊎◌, inl, inr, refl, Option, ℤ, Action, Done, Error, Option-cases}
use omen_backend.Base.Keeps.{Keeps, keeps_rules, Keeps-bind, Keeps-pure}
use omen_backend.Token.Store.{Ledger, Token, find_token_by_id}
use omen_backend.Swap.Types.{
  SwapStatus, SwapQuote, CreateSwapInput, FailureReason, SwapRecord, SwapJobPayload,
}
use omen_backend.Swap.Store.{
  SwapState, SwapEventType, SwapAuditAction, SwapTokensParams, on_ledger, change_swap,
  update_swap_status, mark_swap_processing, mark_swap_completed, mark_swap_failed,
  publish_swap_event, insert_swap_audit,
}
use omen_backend.Swap.Quote.{build_quote, both_tokens}
use omen_backend.Swap.Service.{
  fail_swap, validate_swap_input, ensure_compliance_if_required, ensure_sufficient_balance,
  quote_for, record_request, lock_and_record, request_swap,
}
use omen_backend.Swap.Worker.{
  Bridge, Prepared, prepare, params_of, swap_tokens, complete_swap, execute_swap, handle_failure,
  start_swap, process_open,
}

-- A property that the token service, the bridge, the events and the audit log do not touch, and
-- that every change of the row `j` that leaves its id alone keeps.
pub record IsLocal (P : SwapState → Type 0) (j : ℕ) : Type 1 where
  pub ledger : {A : Type 0} (m : Action Ledger A) → Keeps P (on_ledger m)
  pub publish :
      (e : SwapEventType) (i : ℕ) (status : SwapStatus) → Keeps P (publish_swap_event e i status)
  pub audit : (u : ℕ) (a : SwapAuditAction) (i : ℕ) → Keeps P (insert_swap_audit u a i)
  pub send : (bridge : Bridge) (params : SwapTokensParams) → Keeps P (swap_tokens bridge params)
  pub change :
      (f : SwapRecord → SwapRecord)
      → ((r : SwapRecord) → (f r).id ≡ r.id)
      → Keeps P (change_swap j f)

module _ {P : SwapState → Type 0} (j : ℕ) (local : IsLocal P j) where
  Keeps-status : (status : SwapStatus) → Keeps P (update_swap_status j status)
  unfolding update_swap_status
  Keeps-status status = local.change _ λ r. refl

  Keeps-processing : (a b : Option ℕ) → Keeps P (mark_swap_processing j a b)
  unfolding mark_swap_processing
  Keeps-processing a b = local.change _ λ r. refl

  Keeps-completed : (a : Option ℕ) (x : ℤ) → Keeps P (mark_swap_completed j a x)
  unfolding mark_swap_completed
  Keeps-completed a x = local.change _ λ r. refl

  Keeps-failed : (reason : FailureReason) → Keeps P (mark_swap_failed j reason)
  unfolding mark_swap_failed
  Keeps-failed reason = local.change _ λ r. refl

  Keeps-fail : (reason : FailureReason) → Keeps P (fail_swap j reason)
  unfolding fail_swap
  Keeps-fail reason = search (keeps_rules, Keeps-failed, local.ledger, local.audit, local.publish)

  Keeps-handle : (made attempts : ℕ) (e : Error) → Keeps P (handle_failure made attempts j e)
  unfolding handle_failure
  Keeps-handle made attempts e = search (keeps_rules, Keeps-fail, Keeps-status, local.publish)

module _ {P : SwapState → Type 0} (swap : SwapRecord) (local : IsLocal P swap.id)
    (bridge : Bridge) where
  Keeps-complete : (tx : ℕ) → Keeps P (complete_swap swap tx)
  unfolding complete_swap
  Keeps-complete tx =
      search (keeps_rules, local.ledger, Keeps-completed swap.id local, local.audit, local.publish)

  Keeps-execute : (params : SwapTokensParams) → Keeps P (execute_swap bridge swap params)
  unfolding execute_swap
  Keeps-execute params =
      search (keeps_rules, local.send, Keeps-processing swap.id local, Keeps-complete)

  Keeps-start :
      (made attempts : ℕ) (params : SwapTokensParams)
      → Keeps P (start_swap bridge made attempts swap params)
  unfolding start_swap
  Keeps-start made attempts params = search (
    keeps_rules,
    Keeps-processing swap.id local,
    local.publish,
    Keeps-execute,
    Keeps-handle swap.id local,
  )

  Keeps-prepared :
      (made attempts : ℕ) (job : SwapJobPayload) (x : FailureReason ⊎ Prepared)
      → Keeps P (elim x as (λ _. Action SwapState Done) [
        | inl reason ↦ fail_swap swap.id reason
        | inr p ↦ start_swap bridge made attempts swap (params_of job swap p)
      ])
  Keeps-prepared made attempts job (inl reason) = Keeps-fail swap.id local reason
  Keeps-prepared made attempts job (inr p) = Keeps-start made attempts (params_of job swap p)

  pub Keeps-open :
      (key : Option ℕ) (made attempts : ℕ) (job : SwapJobPayload)
      → Keeps P (process_open bridge key made attempts job swap)
  unfolding process_open
  Keeps-open key made attempts job =
      Keeps-bind _ _ (local.ledger (find_token_by_id swap.source_token_id)) λ source.
        Keeps-bind _ _ (local.ledger (find_token_by_id swap.target_token_id))
          λ target. Keeps-prepared made attempts job (prepare source target key)

-- A property that the token service and a recorded request keep.
pub record IsRecorded (P : SwapState → Type 0) : Type 1 where
  pub ledger : {A : Type 0} (m : Action Ledger A) → Keeps P (on_ledger m)
  pub recorded :
      (input : CreateSwapInput) (source target : Token) (q : SwapQuote)
      → Keeps P (record_request input source target q)

module _ {P : SwapState → Type 0} (local : IsRecorded P) where
  Keeps-tokens : (source target : ℕ) → Keeps P (both_tokens source target)
  unfolding both_tokens
  Keeps-tokens source target = search (keeps_rules, local.ledger)

  Keeps-validate : (input : CreateSwapInput) → Keeps P (validate_swap_input input)
  unfolding validate_swap_input
  Keeps-validate input = search keeps_rules

  Keeps-compliance : (u t : ℕ) → Keeps P (ensure_compliance_if_required u t)
  unfolding ensure_compliance_if_required
  Keeps-compliance u t = local.ledger _

  Keeps-sufficient : (u t : ℕ) (amount : ℤ) → Keeps P (ensure_sufficient_balance u t amount)
  unfolding ensure_sufficient_balance
  Keeps-sufficient u t amount = search (keeps_rules, local.ledger)

  Keeps-build : (source target : Token) (amount : ℤ) → Keeps P (build_quote source target amount)
  unfolding build_quote
  Keeps-build source target amount = search keeps_rules

  Keeps-quote :
      (input : CreateSwapInput) (source target : Token) → Keeps P (quote_for input source target)
  unfolding quote_for
  Keeps-quote input source target = elim (Option-cases input.quote) [
    | inl e ↦ rw e (Keeps-build source target input.source_amount)
    | inr (q, e) ↦ rw e (Keeps-pure q)
  ]

  Keeps-place :
      (input : CreateSwapInput) (source target : Token)
      → Keeps P (lock_and_record input source target)
  unfolding lock_and_record
  Keeps-place input source target =
      search (keeps_rules, local.ledger, Keeps-sufficient, Keeps-quote, local.recorded)

  pub Keeps-request : (input : CreateSwapInput) → Keeps P (request_swap input)
  unfolding request_swap
  Keeps-request input =
      search (keeps_rules, Keeps-validate, Keeps-tokens, Keeps-compliance, Keeps-place) depth 10
