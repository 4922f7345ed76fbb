-- ===== src/Tests/Swaps.antt =====
-- Swaps of a user with 50000 of one token against another.
use omen_backend.Base.{
  ℕ, List, false, suc, ◌+◌, ◌*◌, ◌^◌, ◌-◌, ◌<◌, ◌≤◌, ◌≡◌, refl, true, Option, none, some, [], ◌∷◌,
  inl, pos, ok, err, app, positive_balance, swap_amount_below_fees, arith, ◌==◌, if◌then◌else◌,
}
use omen_backend.Token.Store.{
  Ledger, Token, UserBalance, rwa, stable, write_balance, update_balance,
}
use omen_backend.Token.Service.{update_balance_internal, publish_balance, cache_balance}
use omen_backend.Token.Balances.{available, locked}
use omen_backend.Token.Coherence.{IsValid, Reach-IsValid, here, next, update}
use omen_backend.Swap.Types.{
  queued, completed, error_thrown, SwapQuote, CreateSwapInput, SwapRecord, SwapJobPayload,
}
use omen_backend.Swap.Store.{SwapState, SwapTokensParams}
use omen_backend.Swap.Quote.{convert_amount, estimate_rate, build_quote}
use omen_backend.Swap.Quote.Laws.{convert_amount-convert_amount, build_quote-bound}
use omen_backend.Swap.Service.{request_swap, job_of}
use omen_backend.Swap.Service.Requests.{CanRequest, locked_row}
use omen_backend.Swap.Service.Outcome.{
  requested_row, IsRequested, request_swap-accepts, request_swap-strands,
}
use omen_backend.Swap.Worker.{
  confirmed, lost, refused, is_confirmed, Bridge, Prepared, params_of, process_swap_job,
}
use omen_backend.Swap.Worker.Runs.{IsReady, with_status, failed_for}
use omen_backend.Swap.Worker.Retries.{attempts_of, attempts-end}
use omen_backend.Swap.Worker.Completed.{bridged_row, completed_row, job-repeats}
use omen_backend.Swap.Worker.Requested.{request-completes}
use omen_backend.Swap.Worker.Closed.{Reach-closed}
use omen_backend.Swap.Worker.Closed
use omen_backend.Tests.Data.{no_balances, no_balances-IsValid}

-- With 18 and with 6 decimals.
abbrev gold : Token
gold = record {
  id = 31;
  token_symbol = 310;
  token_type = rwa;
  contract_address = some 3100;
  blockchain = 1;
  decimals = 18;
  total_supply = none;
  is_active = true;
}

abbrev dollar : Token
dollar = record {
  id = 32;
  token_symbol = 320;
  token_type = stable;
  contract_address = some 3200;
  blockchain = 2;
  decimals = 6;
  total_supply = none;
  is_active = true;
}

abbrev two_tokens : Ledger
two_tokens = record no_balances { tokens = gold ∷ dollar ∷ [] }

two_tokens-IsValid : IsValid two_tokens
two_tokens-IsValid = record {
  keyed = no_balances-IsValid.keyed;
  coherent = no_balances-IsValid.coherent;
}

abbrev funded : Ledger
funded = (update_balance_internal 1 31 (pos 50_000) (pos 70) two_tokens).1

abbrev funds : UserBalance
funds = record { user_id = 1; token_id = 31; available_balance = 50_000; locked_balance = 70 }

abbrev no_swaps : SwapState
no_swaps = record {
  ledger = funded;
  swaps = λ i. none;
  created = [];
  jobs = [];
  events = [];
  audit_log = [];
  bridged = [];
  next_id = 5;
}

abbrev swap_of : ℕ → Option SwapQuote → CreateSwapInput
swap_of amount quote = record {
  user_id = 1;
  source_token_id = 31;
  target_token_id = 32;
  source_chain = 1;
  target_chain = 2;
  source_amount = pos amount;
  min_target_amount = none;
  destination_address = 44;
  bridge_contract_address = 45;
  quote = quote;
}

can_request :
    (n : ℕ) (quote : Option SwapQuote)
    → suc n ≤ 50_000
    → CanRequest (swap_of (suc n) quote) n gold dollar funds no_swaps
unfolding update_balance_internal update_balance write_balance publish_balance cache_balance
can_request n quote h = record {
  distinct = refl;
  positive = refl;
  minimum = refl;
  source_found = refl;
  target_found = refl;
  source_address = refl;
  target_address = refl;
  valid =
      Reach-IsValid two_tokens-IsValid (next here (update 1 31 (pos 50_000) (pos 70) two_tokens));
  held = refl;
  enough = h;
}

-- The quote of a client that expects 9000000 for whatever it gives.
abbrev generous : SwapQuote
generous = record {
  source_token_id = 31;
  target_token_id = 32;
  source_amount = pos 20_000;
  expected_target_amount = pos 9_000_000;
  rate = 10_000;
  expires_at = 0;
  platform_fee = pos 0;
  bridge_fee = pos 0;
  network_fee = pos 0;
  total_fee = pos 0;
}

request_swap-accepts_example :
    let (r, s') = request_swap (swap_of 20_000 (some generous)) no_swaps in
    (r ≡ ok (requested_row (swap_of 20_000 (some generous)) generous 5))
    × IsRequested (swap_of 20_000 (some generous)) 20_000 gold dollar generous funds no_swaps s'
request_swap-accepts_example =
    request_swap-accepts (swap_of 20_000 (some generous)) 19_999 gold dollar funds no_swaps generous
      (can_request 19_999 (some generous) (omega arith)) (inl refl)

request_swap-strands_example :
    let (r, s') = request_swap (swap_of 900 none) no_swaps in
    (r ≡ err (app 400 swap_amount_below_fees))
    × (s'.swaps ≡ no_swaps.swaps)
    × (s'.jobs ≡ no_swaps.jobs)
    × (s'.ledger.balances 1 31 ≡ some (locked_row 1 31 900 funds))
request_swap-strands_example =
    request_swap-strands (swap_of 900 none) 899 gold dollar funds no_swaps
      (can_request 899 none (omega arith)) refl (omega arith)

abbrev answering : Bridge
answering sent params = confirmed (71, 72)

request-completes_example :
    let (r, s') =
      process_swap_job answering
        (some 8)
        0
        5
        (job_of
          (swap_of 20_000 (some generous))
          (requested_row (swap_of 20_000 (some generous)) generous 5)
          gold
          dollar)
        (request_swap (swap_of 20_000 (some generous)) no_swaps).1 in
    (r ≡ ok tt)
    × (s'.swaps 5
        ≡ some (completed_row (71, 72) (requested_row (swap_of 20_000 (some generous)) generous 5)))
    × (available (s'.ledger.balances 1 31) + 20_000 ≡ 50_000)
    × (locked (s'.ledger.balances 1 31) ≡ 70)
    × (available (s'.ledger.balances 1 32) ≡ available (no_swaps.ledger.balances 1 32) + 9_000_000)
request-completes_example =
    request-completes answering 0 5 8 (71, 72) (swap_of 20_000 (some generous)) 19_999 9_000_000
      gold dollar funds no_swaps generous (can_request 19_999 (some generous) (omega arith))
      (inl refl) 3100 3200 refl refl refl (λ params. refl)

-- A swap of 20000 in the queue, of which `held` is locked.
abbrev waiting : SwapRecord
waiting = requested_row (swap_of 20_000 (some generous)) generous 5

abbrev waiting_job : SwapJobPayload
waiting_job = job_of (swap_of 20_000 (some generous)) waiting gold dollar

abbrev waiting_state : ℕ → SwapState
waiting_state held = record no_swaps {
  ledger = (update_balance_internal 1 31 (pos 30_000) (pos held) two_tokens).1;
  swaps = λ i. if i == 5 then some waiting else none;
  next_id = 6;
}

abbrev prepared : Prepared
prepared = record { source_address = 3100; target_address = 3200; key = 8 }

waiting-IsReady : (held : ℕ) → IsReady (some 8) waiting_job waiting prepared (waiting_state held)
unfolding update_balance_internal update_balance write_balance publish_balance cache_balance
waiting-IsReady held = record { row = refl; keyed = refl; opened = refl; prepared = refl }

-- The first call is carried out and lost, the others are refused.
abbrev lossy : Bridge
lossy [] params = lost
lossy (x ∷ xs) params = refused

loses :
    (sent : List SwapTokensParams)
    → is_confirmed (lossy sent (params_of waiting_job waiting prepared)) ≡ false
loses [] = refl
loses (x ∷ xs) = refl

attempts-end_example :
    let s' = attempts_of lossy (some 8) 5 waiting_job 5 (waiting_state 20_070) in
    (s'.swaps 5 ≡ some (failed_for error_thrown waiting))
    × (available (s'.ledger.balances 1 31) ≡ 50_000)
    × (locked (s'.ledger.balances 1 31) + 20_000 ≡ 20_070)
    × (s'.bridged ≡ params_of waiting_job waiting prepared ∷ [])
unfolding update_balance_internal update_balance write_balance publish_balance cache_balance
attempts-end_example =
    attempts-end lossy (some 8) 4 waiting_job waiting prepared (waiting_state 20_070)
      (waiting-IsReady 20_070) loses 20_000
      (record { user_id = 1; token_id = 31; available_balance = 30_000; locked_balance = 20_070 })
      refl refl (omega arith)

job-repeats_example :
    let (r, s') = process_swap_job answering (some 8) 0 5 waiting_job (waiting_state 100) in
    (r ≡ err positive_balance)
    × IsReady (some 8) waiting_job (with_status queued (bridged_row (71, 72) waiting)) prepared s'
    × (s'.ledger ≡ (waiting_state 100).ledger)
    × (s'.bridged ≡ params_of waiting_job waiting prepared ∷ [])
unfolding update_balance_internal update_balance write_balance publish_balance cache_balance
job-repeats_example =
    job-repeats answering (some 8) 0 5 waiting_job waiting prepared (71, 72) 20_000
      (waiting_state 100) (waiting-IsReady 100) refl refl refl (omega arith) refl

abbrev done_state : SwapState
done_state = record no_swaps {
  swaps = λ i. if i == 5 then some (with_status completed waiting) else none;
  next_id = 6;
}

Reach-closed_example :
    (process_swap_job answering
        (some 8)
        0
        5
        waiting_job
        (request_swap (swap_of 900 none) done_state).1).1.swaps
      5
    ≡ some (with_status completed waiting)
Reach-closed_example =
    Reach-closed 5 (with_status completed waiting) ((λ i r h. ground arith), (λ i h. ground arith))
      refl refl
      (Closed.next (Closed.next Closed.here (Closed.request (swap_of 900 none) done_state)) (
        Closed.run answering (some 8) 0 5 waiting_job
          (request_swap (swap_of 900 none) done_state).1))

-- 0.00000002 gold make no dollar; a dollar made gold and back is the same.
convert_amount-convert_amount_example :
    convert_amount (convert_amount (pos 1_000_000) 6 18) 18 6 ≡ pos 1_000_000
convert_amount-convert_amount_example = convert_amount-convert_amount 1_000_000 6 18 (omega arith)

abbrev quoted : SwapQuote
quoted = record {
  source_token_id = 32;
  target_token_id = 31;
  source_amount = pos 20_000;
  expected_target_amount = convert_amount (pos 18_920) 6 18;
  rate = 9990;
  expires_at = 305_000;
  platform_fee = pos 50;
  bridge_fee = pos 30;
  network_fee = pos 1000;
  total_fee = pos 1080;
}

build_quote-bound_example :
    (no_swaps ≡ no_swaps)
    × ((e f : ℕ) × (quoted.expected_target_amount ≡ pos e)
        × (quoted.total_fee ≡ pos f)
        × (f < 20_000)
        × (f * 10_000 ≤ 20_000 * 40 + 10_000_000)
        × (e * 10 ^ 6 ≤ (20_000 - f) * 10 ^ 18))
unfolding build_quote estimate_rate update_balance_internal update_balance write_balance
    publish_balance cache_balance
build_quote-bound_example = build_quote-bound dollar gold 20_000 no_swaps no_swaps quoted refl
