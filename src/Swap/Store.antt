-- ===== src/Swap/Store.antt =====
-- The table `token_swaps` with the queries on it
-- (marketBackend/src/infra/database/repositories/swapRepository.ts), the swap queue, the audit log
-- and what marketBackend/src/lib/events/swapEventPublisher.ts publishes, which swallows a failure.
use omen_backend.Base.{
  coalesce, ℕ, ◌+◌, Option, none, some, List, [], ◌∷◌, ℤ, ◌==◌, select, take, Table, insert, Action,
  Done, ok, err, gets, modify, zoom, swap_row_missing,
}
use omen_backend.Token.Store.{Ledger}
use omen_backend.Swap.Types.{
  SwapStatus, pending, processing, completed, failed, SwapQuote, CreateSwapInput, FailureReason,
  SwapRecord, SwapJobPayload,
}

pub data SwapEventType : Type 0 where
  swap_requested swap_queued swap_processing swap_completed swap_failed : SwapEventType

pub record SwapEvent : Type 0 where
  pub event_type : SwapEventType
  pub swap_id : ℕ
  pub status : SwapStatus

pub data SwapAuditAction : Type 0 where
  swap_request_created swap_done swap_gave_up : SwapAuditAction

pub record SwapAudit : Type 0 where
  pub user_id : ℕ
  pub action : SwapAuditAction
  pub resource_id : ℕ

-- What `SapphireTokenClient.swapTokens` is asked to do.
pub record SwapTokensParams : Type 0 where
  pub source_token_address : ℕ
  pub target_token_address : ℕ
  pub amount : ℤ
  pub recipient : ℕ
  pub bridge_contract_address : ℕ
  pub target_chain_id : ℕ
  pub signer_private_key : ℕ
  pub min_target_amount : Option ℤ

pub record SwapState : Type 0 where
  pub ledger : Ledger
  pub swaps : Table SwapRecord
  -- The ids of the rows in the order of `created_at`, the newest first.
  pub created : List ℕ
  -- The jobs added to the swap queue, the published events, the audit records and the swaps that
  -- the bridge has carried out, the newest first.
  pub jobs : List SwapJobPayload
  pub events : List SwapEvent
  pub audit_log : List SwapAudit
  pub bridged : List SwapTokensParams
  pub next_id : ℕ

-- A call of the token service or its repository.
abbrev pub on_ledger : {A : Type 0} → Action Ledger A → Action SwapState A
on_ledger m = zoom (λ s. s.ledger) (λ w s. record s { ledger = w }) m

-- `input.quote?.expectedTargetAmount ?? input.sourceAmount`.
abbrev expected_of : Option SwapQuote → ℤ → ℤ
expected_of none amount = amount
expected_of (some q) amount = q.expected_target_amount

unfoldable pub create_swap_request : CreateSwapInput → Action SwapState SwapRecord
create_swap_request input s =
    let swap : SwapRecord = record {
      id = s.next_id;
      user_id = input.user_id;
      source_token_id = input.source_token_id;
      target_token_id = input.target_token_id;
      source_chain = input.source_chain;
      target_chain = input.target_chain;
      source_amount = input.source_amount;
      expected_target_amount = expected_of input.quote input.source_amount;
      destination_address = input.destination_address;
      bridge_contract_address = input.bridge_contract_address;
      status = pending;
      sapphire_swap_id = none;
      source_tx_hash = none;
      target_tx_hash = none;
      failure_reason = none;
    } in
    (
      ok swap,
      record s {
        swaps = insert s.next_id swap s.swaps;
        created = s.next_id ∷ s.created;
        next_id = s.next_id + 1;
      },
    )

-- UPDATE token_swaps … WHERE id = … RETURNING *; no row is an error.
unfoldable pub change_swap : ℕ → (SwapRecord → SwapRecord) → Action SwapState SwapRecord
change_swap id f s = elim (s.swaps id) [
  | none ↦ (err swap_row_missing, s)
  | some swap ↦ (ok (f swap), record s { swaps = insert id (f swap) s.swaps })
]

unfoldable pub update_swap_status : ℕ → SwapStatus → Action SwapState SwapRecord
update_swap_status id status = change_swap id λ r. record r { status = status }

unfoldable pub mark_swap_processing : ℕ → Option ℕ → Option ℕ → Action SwapState SwapRecord
mark_swap_processing id sapphire_id tx_hash = change_swap id λ r. record r {
  status = processing;
  sapphire_swap_id = coalesce sapphire_id r.sapphire_swap_id;
  source_tx_hash = coalesce tx_hash r.source_tx_hash;
}

unfoldable pub mark_swap_completed : ℕ → Option ℕ → ℤ → Action SwapState SwapRecord
mark_swap_completed id tx_hash expected = change_swap id λ r. record r {
  status = completed;
  target_tx_hash = coalesce tx_hash r.target_tx_hash;
  expected_target_amount = expected;
}

unfoldable pub mark_swap_failed : ℕ → FailureReason → Action SwapState SwapRecord
mark_swap_failed id reason =
    change_swap id λ r. record r { status = failed; failure_reason = some reason }

unfoldable pub find_swap_by_id : ℕ → Action SwapState (Option SwapRecord)
find_swap_by_id id = gets λ s. s.swaps id

-- The rows of the given ids.
abbrev rows_of : Table SwapRecord → List ℕ → List SwapRecord
rows_of swaps [] = []
rows_of swaps (id ∷ ids) =
    let rest = rows_of swaps ids in elim (swaps id) [ none ↦ rest | some swap ↦ swap ∷ rest ]

unfoldable pub list_swaps_by_user : ℕ → ℕ → Action SwapState (List SwapRecord)
list_swaps_by_user user limit =
    gets
      λ s. take limit (select (λ (r : SwapRecord). r.user_id == user) (rows_of s.swaps s.created))

unfoldable pub list_recent_swaps : ℕ → Action SwapState (List SwapRecord)
list_recent_swaps limit = gets λ s. take limit (rows_of s.swaps s.created)

unfoldable pub publish_swap_event : SwapEventType → ℕ → SwapStatus → Action SwapState Done
publish_swap_event event_type id status = modify λ s. record s {
  events = record { event_type = event_type; swap_id = id; status = status } ∷ s.events;
}

unfoldable pub insert_swap_audit : ℕ → SwapAuditAction → ℕ → Action SwapState Done
insert_swap_audit user action id = modify λ s. record s {
  audit_log = record { user_id = user; action = action; resource_id = id } ∷ s.audit_log;
}

unfoldable pub add_swap_job : SwapJobPayload → Action SwapState Done
add_swap_job job = modify λ s. record s { jobs = job ∷ s.jobs }
