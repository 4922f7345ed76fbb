-- ===== src/Tests/Markets.antt =====
-- A market from its registration to its activation.
use omen_backend.Base.{ℕ, ◌≡◌, refl, Bool, true, Option, none, some, [], ◌∷◌, ok, is_some}
use omen_backend.Market.Types.{Market, pending_approval, activating}
use omen_backend.Market.Store.{
  MarketState, CreateMarketInput, create_market, change_market, update_market_status,
  approve_market, find_market, create_market_asset, publish_market_event, add_deployment,
}
use omen_backend.Market.Service.{
  MarketAction, approve, get_market, request_approval, deployment_of, start_activation,
  activate_market, assert_authorization, decide, process_approval_decision, register_as,
  register_market, pause_market,
}
use omen_backend.Market.Service.Calls.{AreGoverned}
use omen_backend.Market.Service.Governed.{here, next, register, decision, MarketReach-approved}
use omen_backend.Market.Service.Decisions.{process_approval_decision-approve, approved_by_admin}

abbrev no_markets : MarketState
no_markets = record { markets = λ id. none; assets = []; events = []; jobs = []; next_id = 4 }

-- Everyone may do everything.
abbrev permissive : (admin entity : ℕ) → MarketAction → Option Bool
permissive admin entity action = some true

abbrev harbour : CreateMarketInput
harbour = record {
  name = 70;
  owner_id = 0;
  issuer_id = some 8;
  token_symbol = some 71;
  token_name = none;
  total_supply = some 1000;
}

abbrev waiting : MarketState
waiting = (register_market permissive harbour 6 9 no_markets).1

abbrev live_soon : MarketState
live_soon = (process_approval_decision permissive 4 approve none 6 9 waiting).1

abbrev harbour_market : Market
harbour_market = record {
  id = 4;
  name = 70;
  owner_id = 9;
  issuer_id = some 8;
  status = pending_approval;
  contract_address = none;
  deployment_tx_hash = none;
  token_symbol = some 71;
  token_name = none;
  total_supply = some 1000;
  approved_by = none;
  rejected_reason = none;
}

none_governed : AreGoverned no_markets
none_governed id = tt

MarketReach-approved_example : is_some {A = ℕ} (some 9) ≡ true
unfolding create_market change_market update_market_status approve_market find_market
    create_market_asset publish_market_event add_deployment get_market request_approval
    start_activation activate_market assert_authorization decide process_approval_decision
    register_as register_market pause_market
MarketReach-approved_example =
    MarketReach-approved permissive 4
      {m = record (approved_by_admin harbour_market 9) { status = activating }} none_governed
      (next (next here (register harbour 6 9 no_markets)) (decision 4 approve none 6 9 waiting))
      refl refl

process_approval_decision-approve_example :
    let (r, s') = process_approval_decision permissive 4 approve none 6 9 waiting in
    (r ≡ ok (approved_by_admin harbour_market 9))
    × (s'.markets 4 ≡ some (record (approved_by_admin harbour_market 9) { status = activating }))
    × (s'.jobs ≡ deployment_of (approved_by_admin harbour_market 9) 9 ∷ [])
unfolding create_market change_market update_market_status approve_market find_market
    create_market_asset publish_market_event add_deployment get_market request_approval
    start_activation activate_market assert_authorization decide process_approval_decision
    register_as register_market pause_market
process_approval_decision-approve_example =
    process_approval_decision-approve permissive 4 none 6 9 harbour_market waiting refl refl refl
