-- ===== src/Market/Service.antt =====
-- The class `MarketService` of marketBackend/src/services/marketService.ts. The reply of the entity
-- permissions service is a parameter: it allows an action, refuses it, or throws (`none`). A missing
-- reason stands for 'No reason provided'.
pub mod Calls
pub mod Governed
pub mod Decisions
use omen_backend.Base.{
  ℕ, Bool, true, false, not, Option, none, some, List, [], ◌∷◌, if◌then◌else◌, Action, Done, pure,
  throw, or_throw, throw_if, ◌>>=◌, ◌>>◌, app, external, market_not_found, invalid_market_status,
  market_not_approved, forbidden,
}
use omen_backend.Market.Types.{
  MarketStatus, draft, pending_approval, approved, rejected, activating, active, paused, archived,
  Market, MarketEventType, registered, approval_requested, was_approved, was_rejected,
  activation_started, was_paused, was_archived,
}
use omen_backend.Market.Store.{
  DeploymentJob, MarketState, CreateMarketInput, create_market, update_market_status,
  approve_market, reject_market, find_market, create_market_asset, publish_market_event,
  add_deployment,
}

pub data MarketAction : Type 0 where
  register_action approve_action reject_action pause_action archive_action : MarketAction

pub data Decision : Type 0 where
  approve reject : Decision

abbrev pub action_of : Decision → MarketAction
action_of approve = approve_action
action_of reject = reject_action

abbrev pub is_pending_approval : MarketStatus → Bool
is_pending_approval pending_approval = true
is_pending_approval _ = false

abbrev pub is_approved_status : MarketStatus → Bool
is_approved_status approved = true
is_approved_status _ = false

abbrev pub or_default : Option ℕ → ℕ → ℕ
or_default none d = d
or_default (some n) d = n

unfoldable pub get_market : ℕ → Action MarketState Market
unfolding find_market
get_market id = find_market id >>= λ found. or_throw found (app 404 market_not_found)

unfoldable pub request_approval : (market_id admin : ℕ) → Action MarketState Done
request_approval id admin = do
  get_market id
  update_market_status id pending_approval
  publish_market_event id approval_requested admin

abbrev pub deployment_of : Market → ℕ → DeploymentJob
deployment_of market admin = record {
  market_id = market.id;
  token_name = or_default market.token_name market.name;
  token_symbol = market.token_symbol;
  total_supply = or_default market.total_supply 0;
  actor_id = admin;
}

-- From the status check on.
unfoldable pub start_activation : ℕ → ℕ → Market → Action MarketState Market
start_activation id admin market = do
  throw_if (not (is_approved_status market.status)) (app 400 market_not_approved)
  activating_market ← update_market_status id activating
  publish_market_event id activation_started admin
  add_deployment (deployment_of market admin)
  pure activating_market

unfoldable pub activate_market : (market_id admin : ℕ) → Action MarketState Market
activate_market id admin = get_market id >>= start_activation id admin

module _ (authorize : (admin entity : ℕ) → MarketAction → Option Bool) where
  unfoldable pub assert_authorization : (admin entity : ℕ) → MarketAction → Action MarketState Done
  assert_authorization admin entity action = elim (authorize admin entity action) [
    | none ↦ throw external
    | some allowed ↦ throw_if (not allowed) (app 403 forbidden)
  ]

  -- What follows the check of the market's status.
  unfoldable pub decide : ℕ → Decision → Option ℕ → ℕ → Action MarketState Market
  decide id approve reason admin = do
    updated ← approve_market id admin
    publish_market_event id was_approved admin
    activate_market id admin
    pure updated
  decide id reject reason admin = do
    updated ← reject_market id reason
    publish_market_event id was_rejected admin
    pure updated

  unfoldable pub process_approval_decision :
      (market_id : ℕ)
      → Decision
      → (reason : Option ℕ) → (entity admin : ℕ) → Action MarketState Market
  process_approval_decision id decision reason entity admin = do
    market ← get_market id
    throw_if (not (is_pending_approval market.status)) (app 400 invalid_market_status)
    assert_authorization admin entity (action_of decision)
    decide id decision reason admin

  -- What follows the authorization.
  unfoldable pub register_as : CreateMarketInput → ℕ → Action MarketState Market
  register_as input admin = do
    market ← create_market input
    create_market_asset market.id
    publish_market_event market.id registered admin
    request_approval market.id admin
    pure market

  unfoldable pub register_market :
      CreateMarketInput → (entity admin : ℕ) → Action MarketState Market
  register_market input entity admin = do
    assert_authorization admin entity register_action
    register_as (record input { owner_id = admin }) admin

  unfoldable pub pause_market : (market_id entity admin : ℕ) → Action MarketState Market
  pause_market id entity admin = do
    assert_authorization admin entity pause_action
    market ← update_market_status id paused
    publish_market_event id was_paused admin
    pure market

  unfoldable pub archive_market : (market_id entity admin : ℕ) → Action MarketState Market
  archive_market id entity admin = do
    assert_authorization admin entity archive_action
    market ← update_market_status id archived
    publish_market_event id was_archived admin
    pure market
