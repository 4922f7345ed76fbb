-- ===== src/Swap/Service/Outcome.antt =====
-- How `SwapService.requestSwap` of marketBackend/src/services/swapService.ts ends, and what a job
-- makes of the request.
use omen_backend.Base.{
  ℕ, suc, ◌+◌, ◌*◌, ◌/◌, ◌≤◌, ◌≡◌, ◌≢◌, ◌⊎◌, inl, inr, ◌∙◌, refl, sym, subst, true, false, none,
  some, ◌∷◌, ℤ, pos, leb_ℤ, Bool, insert, Action, ok, err, app, swap_amount_below_fees, bind-ok,
  bind-err, pure, ◌>>◌, arith,
}
use omen_backend.Token.Store.{Token, UserBalance}
use omen_backend.Swap.Types.{pending, queued, SwapQuote, CreateSwapInput, SwapRecord}
use omen_backend.Swap.Store.{
  SwapState, create_swap_request, add_swap_job, update_swap_status, change_swap, insert_swap_audit,
  publish_swap_event, swap_requested, swap_request_created,
}
use omen_backend.Swap.Quote.{build_quote, total_fee_of}
use omen_backend.Swap.Service.{quote_for, record_request, request_swap, job_of}
use omen_backend.Swap.Service.Requests.{
  CanRequest, locked_row, locked_state, locked_lem, reaches_quote,
}

module _ (input : CreateSwapInput) (n : ℕ) (source target : Token) (b : UserBalance) (s : SwapState)
    (can : CanRequest input n source target b s) where
  quote-throws :
      input.quote ≡ none
      → suc n ≤ suc n * 25 / 10_000 + suc n * 15 / 10_000 + 1000
      → (st : SwapState)
      → quote_for input source target st ≡ (err (app 400 swap_amount_below_fees), st)
  unfolding quote_for build_quote
  quote-throws unquoted low st = ground (arith, can.positive)

  -- A request that brings no quote and whose amount is no more than its fees throws
  -- swap_amount_below_fees after the lock: no swap and no job is recorded, and the amount stays in
  -- the locked part of the source.
  pub request_swap-strands :
      input.quote ≡ none
      → suc n ≤ suc n * 25 / 10_000 + suc n * 15 / 10_000 + 1000
      → let (r, s') = request_swap input s in
        (r ≡ err (app 400 swap_amount_below_fees))
        × (s'.swaps ≡ s.swaps)
        × (s'.jobs ≡ s.jobs)
        × (s'.ledger.balances input.user_id source.id
            ≡ some (locked_row input.user_id source.id (suc n) b))
  request_swap-strands unquoted low =
      let st = locked_state input n source s in
      let run =
        reaches_quote input n source target b s can
        ∙ bind-err (quote_for input source target) (record_request input source target) st
            (quote-throws unquoted low st) in
      subst
        (λ x.
          (x.0 ≡ err (app 400 swap_amount_below_fees))
          × (x.1.swaps ≡ s.swaps)
          × (x.1.jobs ≡ s.jobs)
          × (x.1.ledger.balances input.user_id source.id
              ≡ some (locked_row input.user_id source.id (suc n) b)))
        (sym run) (refl, refl, refl, (locked_lem input n source target b s can).1)

-- The row of a request with a quote.
abbrev pub requested_row : CreateSwapInput → SwapQuote → ℕ → SwapRecord
requested_row input q id = record {
  id = id;
  user_id = input.user_id;
  source_token_id = input.source_token_id;
  target_token_id = input.target_token_id;
  source_chain = input.source_chain;
  target_chain = input.target_chain;
  source_amount = input.source_amount;
  expected_target_amount = q.expected_target_amount;
  destination_address = input.destination_address;
  bridge_contract_address = input.bridge_contract_address;
  status = queued;
  sapphire_swap_id = none;
  source_tx_hash = none;
  target_tx_hash = none;
  failure_reason = none;
}

abbrev pub requested_state : CreateSwapInput → Token → Token → SwapQuote → SwapState → SwapState
requested_state input source target q s =
    let row = requested_row input q s.next_id in
    record s {
      swaps = insert s.next_id row (insert s.next_id (record row { status = pending }) s.swaps);
      created = s.next_id ∷ s.created;
      jobs = job_of input row source target ∷ s.jobs;
      events =
          record { event_type = swap_requested; swap_id = s.next_id; status = queued } ∷ s.events;
      audit_log =
          record { user_id = input.user_id; action = swap_request_created; resource_id = s.next_id }
          ∷ s.audit_log;
      next_id = s.next_id + 1;
    }

pub record-goes :
    (input : CreateSwapInput) (source target : Token) (q : SwapQuote) (s : SwapState)
    → record_request input source target q s
      ≡ (ok (requested_row input q s.next_id), requested_state input source target q s)
unfolding record_request create_swap_request add_swap_job update_swap_status change_swap
    insert_swap_audit publish_swap_event
record-goes input source target q s =
    let row = requested_row input q s.next_id in
    let stored = insert s.next_id (record row { status = pending }) s.swaps in
    let s2 : SwapState = record s {
      swaps = stored;
      created = s.next_id ∷ s.created;
      jobs = job_of input row source target ∷ s.jobs;
      next_id = s.next_id + 1;
    } in
    let rest : SwapRecord → Action SwapState SwapRecord = λ queued_swap.
      insert_swap_audit input.user_id swap_request_created s.next_id
      >> (publish_swap_event swap_requested s.next_id queued >> pure queued_swap) in
    bind-ok (update_swap_status s.next_id queued) rest s2 {a = row}
      {s' = record s2 { swaps = insert s.next_id row stored }} (ground arith)

-- The quote of a request: the one that it brings, or the one that the service builds.
abbrev pub IsQuoted : CreateSwapInput → Token → Token → SwapQuote → SwapState → Type 0
IsQuoted input source target q s =
    (input.quote ≡ some q)
    ⊎ ((input.quote ≡ none) × ((build_quote source target input.source_amount s).0 ≡ ok q))

build_quote-now :
    (source target : Token) (amount : ℤ) (q : SwapQuote) (s st : SwapState)
    → st.ledger.now ≡ s.ledger.now
    → (build_quote source target amount s).0 ≡ ok q
    → build_quote source target amount st ≡ (ok q, st)
unfolding build_quote
build_quote-now source target amount q s st same h =
    split (leb_ℤ amount (pos 0)) (leb_ℤ amount (total_fee_of amount)) refl refl
  where
    split :
        (low short : Bool)
        → leb_ℤ amount (pos 0) ≡ low
        → leb_ℤ amount (total_fee_of amount) ≡ short
        → build_quote source target amount st ≡ (ok q, st)
    split true short e f = absurd (cc (rw e at h))
    split false true e f = absurd (cc (rw (e, f) at h))
    split false false e f = rw (e, f) (λ i. ((rw (e, f, sym same) at h) i, st))

-- What an accepted request has done to a state: a QUEUED row with the expected amount of the quote
-- under a new id, a job for it, and the amount moved to the locked part of the source.
abbrev pub IsRequested :
    CreateSwapInput
    → (n : ℕ) → Token
    → Token
    → SwapQuote
    → UserBalance
    → SwapState
    → SwapState
    → Type 0
IsRequested input n source target q b s s' =
    let row = requested_row input q s.next_id in
    (s'.swaps s.next_id ≡ some row)
    × (s'.jobs ≡ job_of input row source target ∷ s.jobs)
    × (s'.bridged ≡ s.bridged)
    × (s'.ledger.tokens ≡ s.ledger.tokens)
    × (s'.ledger.balances input.user_id source.id ≡ some (locked_row input.user_id source.id n b))
    × ((u' t' : ℕ)
        → (u' ≢ input.user_id) ⊎ (t' ≢ source.id)
        → s'.ledger.balances u' t' ≡ s.ledger.balances u' t')

module _ (input : CreateSwapInput) (n : ℕ) (source target : Token) (b : UserBalance) (s : SwapState)
    (q : SwapQuote) (can : CanRequest input n source target b s)
    (quoted : IsQuoted input source target q s) where
  quote-goes :
      quote_for input source target (locked_state input n source s)
      ≡ (ok q, locked_state input n source s)
  unfolding quote_for
  quote-goes = elim quoted [
    | inl given ↦ rw given refl
    | inr (none_given, built) ↦ rw none_given (
        build_quote-now source target input.source_amount q s (locked_state input n source s)
          (locked_lem input n source target b s can).3 built)
  ]

  -- A request for a positive amount that its user has, between different tokens with contracts and
  -- with a quote, is accepted: the new swap is QUEUED with the amount that the quote expects, its
  -- job is in the queue, and the source amount is locked.
  pub request_swap-accepts :
      let (r, s') = request_swap input s in
      (r ≡ ok (requested_row input q s.next_id)) × IsRequested input (suc n) source target q b s s'
  request_swap-accepts =
      let st = locked_state input n source s in
      let (_, here, tokens, _, others) = locked_lem input n source target b s can in
      let run =
        reaches_quote input n source target b s can
        ∙ bind-ok (quote_for input source target) (record_request input source target) st quote-goes
        ∙ record-goes input source target q st in
      subst
        (λ x.
          (x.0 ≡ ok (requested_row input q s.next_id))
          × IsRequested input (suc n) source target q b s x.1)
        (sym run) (refl, (ground arith, refl, refl, tokens, here, others))
