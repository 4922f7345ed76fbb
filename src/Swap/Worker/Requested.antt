-- ===== src/Swap/Worker/Requested.antt =====
-- A request and the job that it queued, in marketBackend/src/services/swapService.ts: requestSwap
-- followed by processSwapJob.
use omen_backend.Base.{
  ℕ, suc, ◌+◌, ◌≡◌, inr, ◌∙◌, ap, refl, subst, some, pos, ◌==◌, true, any, find-any, find-holds,
  ==-eq, ok, find, arith,
}
use omen_backend.Token.Store.{Token, UserBalance}
use omen_backend.Token.Balances.{available, locked}
use omen_backend.Swap.Types.{SwapQuote, CreateSwapInput, SwapRecord}
use omen_backend.Swap.Store.{SwapState, SwapTokensParams}
use omen_backend.Swap.Service.{request_swap, job_of}
use omen_backend.Swap.Service.Requests.{CanRequest, locked_row}
use omen_backend.Swap.Service.Outcome.{IsQuoted, IsRequested, requested_row, request_swap-accepts}
use omen_backend.Swap.Worker.{confirmed, Bridge, Prepared, params_of, process_swap_job}
use omen_backend.Swap.Worker.Runs.{token_at, IsReady}
use omen_backend.Swap.Worker.Completed.{completed_row, job-completes}

module _ (bridge : Bridge) (made attempts key : ℕ) (receipt : ℕ × ℕ) (input : CreateSwapInput)
    (n m : ℕ) (source target : Token) (b : UserBalance) (s : SwapState) (q : SwapQuote)
    (can : CanRequest input n source target b s) (quoted : IsQuoted input source target q s) where
  abbrev row : SwapRecord
  row = requested_row input q s.next_id

  abbrev after : SwapState
  after = (request_swap input s).1

  requested : IsRequested input (suc n) source target q b s after
  requested = (request_swap-accepts input n source target b s q can quoted).1

  ready :
      (x y : ℕ)
      → source.contract_address ≡ some x
      → target.contract_address ≡ some y
      → IsReady
          (some key)
          (job_of input row source target)
          row
          (record { source_address = x; target_address = y; key = key })
          after
  ready x y e f =
      let (stored, _, _, tokens, _, _) = requested in
      let found : (id : ℕ) (t : Token)
          → token_at id s.ledger ≡ some t
          → token_at id after.ledger ≡ some t =
        λ id t h. ap (λ ts. find (λ (t : Token). t.id == id) ts) tokens ∙ h in
      record {
        row = stored;
        keyed = refl;
        opened = refl;
        prepared =
            rw
              (
                found input.source_token_id source can.source_found,
                found input.target_token_id target can.target_found,
                e,
                f,
              )
              refl;
      }

  source_id : source.id ≡ input.source_token_id
  source_id = ==-eq source.id input.source_token_id (
      find-holds (λ (t : Token). t.id == input.source_token_id) s.ledger.tokens source
        can.source_found)

  held :
      after.ledger.balances input.user_id input.source_token_id
      ≡ some (locked_row input.user_id source.id (suc n) b)
  held =
      subst
        (λ t.
          after.ledger.balances input.user_id t
          ≡ some (locked_row input.user_id source.id (suc n) b))
        source_id requested.4

  target_kept :
      after.ledger.balances input.user_id input.target_token_id
      ≡ s.ledger.balances input.user_id input.target_token_id
  target_kept =
      requested.5 input.user_id input.target_token_id
        (inr λ h. absurd (ground (arith, can.distinct, h, source_id)))

  -- A request for a swap is followed through: where the request can be made and has a quote, the
  -- tokens have contracts, a signer key is configured and the bridge answers, the job that the
  -- request queued returns; the swap is then COMPLETED, the source amount has left the balance, no
  -- more is locked than before, and the amount that the quote expects is credited, even where the
  -- quote came with the request and whatever the bridge has paid out.
  pub request-completes :
      (x y : ℕ)
      → source.contract_address ≡ some x
      → target.contract_address ≡ some y
      → q.expected_target_amount ≡ pos m
      → ((params : SwapTokensParams) → bridge s.bridged params ≡ confirmed receipt)
      → let (r, s') =
          process_swap_job bridge
            (some key)
            made
            attempts
            (job_of input (requested_row input q s.next_id) source target)
            (request_swap input s).1 in
        (r ≡ ok tt)
        × (s'.swaps s.next_id ≡ some (completed_row receipt (requested_row input q s.next_id)))
        × (available (s'.ledger.balances input.user_id input.source_token_id) + suc n
            ≡ b.available_balance)
        × (locked (s'.ledger.balances input.user_id input.source_token_id) ≡ b.locked_balance)
        × (available (s'.ledger.balances input.user_id input.target_token_id)
            ≡ available (s.ledger.balances input.user_id input.target_token_id) + m)
  request-completes x y e f expected answers =
      let p : Prepared = record { source_address = x; target_address = y; key = key } in
      let job = job_of input row source target in
      let params = params_of job row p in
      let answers' : bridge after.bridged params ≡ confirmed receipt =
        ap (λ sent. bridge sent params) requested.2 ∙ answers params in
      let known : any (λ (t : Token). t.id == input.target_token_id) after.ledger.tokens ≡ true =
        ap (any (λ (t : Token). t.id == input.target_token_id)) requested.3
        ∙ find-any (λ (t : Token). t.id == input.target_token_id) s.ledger.tokens
            can.target_found in
      let (r, (done, _, (a1, l1, a2, _, _))) =
        job-completes bridge (some key) made attempts job row p receipt (suc n) after
          (ready x y e f) can.positive answers' held m expected (ground (arith, can.distinct))
          (omega arith) known in
      (
        r,
        done,
        omega (arith, a1, ap available held, can.enough),
        omega (arith, l1, ap locked held),
        omega (arith, a2, ap available target_kept),
      )
