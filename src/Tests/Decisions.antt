-- ===== src/Tests/Decisions.antt =====
-- Approvals that arrive by webhook and by polling, and the deployment that follows.
use omen_backend.Base.{
  ℕ, ◌≡◌, refl, Bool, true, Option, none, some, [], ◌∷◌, ◌++◌, inl, inr, ok, err, valid_event_type,
  ◌==◌, if◌then◌else◌,
}
use omen_backend.Token.Store.{Token, stable}
use omen_backend.Market.Types.{
  Market, pending_approval, activating, approved, activated, was_approved, activation_started,
}
use omen_backend.Market.Store.{MarketState, DeploymentJob}
use omen_backend.Market.Service.{MarketAction, approve, deployment_of}
use omen_backend.Market.Service.Decisions.{approved_by_admin}
use omen_backend.Events.Store.{EventState, market_approved, success, failed}
use omen_backend.Events.Webhook.{
  WebhookBody, received, already_processed, refused, handle_entity_permissions_webhook,
}
use omen_backend.Events.Polling.{PolledEvent, process_entity_permission_event}
use omen_backend.Events.Delivered.{event_with, webhook-once}
use omen_backend.Events.Decided.{approval_of, processed_as, webhook-approves, webhook-fails}
use omen_backend.Events.Polled.{IsUndecided, poll-blocks}
use omen_backend.Deployment.Store.{DeployState}
use omen_backend.Deployment.Worker.{Deployer, handle_token_deployment}
use omen_backend.Deployment.Outcome.{with_market, deployment-abandons}
use omen_backend.Deployment.Activated.{active_market, new_token, new_pair, deployment-activates}
use omen_backend.Tests.Data.{no_balances}

abbrev pier : Market
pier = record {
  id = 4;
  name = 70;
  owner_id = 9;
  issuer_id = some 8;
  status = pending_approval;
  contract_address = none;
  deployment_tx_hash = none;
  token_symbol = some 71;
  token_name = none;
  total_supply = some 1000;
  approved_by = none;
  rejected_reason = none;
}

abbrev one_market : Market → MarketState
one_market m = record {
  markets = λ i. if i == 4 then some m else none;
  assets = [];
  events = [];
  jobs = [];
  next_id = 5;
}

abbrev undecided : EventState
undecided = record { market = one_market pier; processed = λ i. none }

abbrev webhook : WebhookBody
webhook = record {
  notification = none;
  direct = event_with 60 market_approved (approval_of 4 6 none) (some 9);
}

-- The same event in the format of SNS.
abbrev sns_webhook : WebhookBody
sns_webhook = record {
  notification = some (some (event_with 60 market_approved (approval_of 4 6 none) (some 9)));
  direct = record { event_id = none; event_type = none; payload = none; actor_id = none };
}

abbrev permits_all : (admin entity : ℕ) → MarketAction → Option Bool
permits_all admin entity action = some true

abbrev unreachable : (admin entity : ℕ) → MarketAction → Option Bool
unreachable admin entity action = none

webhook-once_example :
    let s' = (handle_entity_permissions_webhook unreachable webhook undecided).1 in
    handle_entity_permissions_webhook unreachable sns_webhook s' ≡ (ok already_processed, s')
webhook-once_example =
    webhook-once unreachable 60 webhook sns_webhook market_approved market_approved
      (approval_of 4 6 none) (approval_of 4 6 none) (some 9) (some 9) undecided (inr (refl, refl))
      (inl refl)

webhook-approves_example :
    let (r, s') = handle_entity_permissions_webhook permits_all webhook undecided in
    (r ≡ ok received)
    × (s'.market.markets 4 ≡ some (record (approved_by_admin pier 9) { status = activating }))
    × (s'.market.jobs ≡ deployment_of (approved_by_admin pier 9) 9 ∷ [])
    × (s'.processed 60 ≡ some (processed_as 60 success))
    × (s'.market.events
        ≡ (([] ++ record { market_id = 4; event_type = was_approved; actor_id = 9 } ∷ [])
            ++ record { market_id = 4; event_type = was_approved; actor_id = 9 } ∷ [])
          ++ record { market_id = 4; event_type = activation_started; actor_id = 9 } ∷ [])
webhook-approves_example =
    webhook-approves permits_all 60 4 6 9 none pier undecided refl webhook (inr (refl, refl)) refl
      refl refl

webhook-fails_example :
    let (r, s') = handle_entity_permissions_webhook unreachable webhook undecided in
    (r ≡ ok (refused 500 none))
    × (s'.market.markets ≡ undecided.market.markets)
    × (s'.market.jobs ≡ [])
    × (s'.processed 60 ≡ some (processed_as 60 failed))
    × (s'.market.events
        ≡ [] ++ record { market_id = 4; event_type = was_approved; actor_id = 9 } ∷ [])
webhook-fails_example =
    webhook-fails unreachable 60 4 6 9 none pier undecided refl webhook (inr (refl, refl)) refl refl
      refl

abbrev polled : PolledEvent
polled = record { event_id = 60; event_type = market_approved; market_id = 4; actor_id = some 9 }

poll-blocks_example :
    let s' = (process_entity_permission_event polled undecided).1 in
    IsUndecided undecided.market s'
    × (handle_entity_permissions_webhook permits_all webhook s' ≡ (ok already_processed, s'))
poll-blocks_example =
    poll-blocks polled approve undecided refl permits_all webhook market_approved
      (approval_of 4 6 none) (some 9) refl (inr (refl, refl))

abbrev activating_pier : Market
activating_pier = record pier { status = activating }

abbrev dollar : Token
dollar = record {
  id = 32;
  token_symbol = 0;
  token_type = stable;
  contract_address = none;
  blockchain = 0;
  decimals = 6;
  total_supply = none;
  is_active = true;
}

abbrev before_deployment : DeployState
before_deployment = record {
  market = one_market activating_pier;
  ledger = record no_balances { tokens = dollar ∷ [] };
  pairs = [];
  usdc_token = some dollar;
  deployed = [];
  next_pair = 1;
}

abbrev job : DeploymentJob
job = deployment_of activating_pier 9

abbrev deploys_all : Deployer
deploys_all before symbol = some (600, 601)

abbrev deploys_none : Deployer
deploys_none before symbol = none

deployment-abandons_example :
    let (r, s') = handle_token_deployment deploys_none job before_deployment in
    (r ≡ err valid_event_type)
    × (s' ≡ with_market 4 (record activating_pier { status = approved }) before_deployment)
    × (handle_token_deployment deploys_all job s' ≡ (ok tt, s'))
deployment-abandons_example =
    deployment-abandons deploys_none deploys_all job activating_pier before_deployment refl refl
      refl

deployment-activates_example :
    let (r, s') = handle_token_deployment deploys_all job before_deployment in
    (r ≡ ok tt)
    × (s'.market.markets 4 ≡ some (active_market (600, 601) activating_pier))
    × (s'.ledger.tokens ≡ (dollar ∷ []) ++ new_token job 600 900 ∷ [])
    × (s'.pairs ≡ [] ++ new_pair job 1 900 32 ∷ [])
    × (s'.market.events ≡ [] ++ record { market_id = 4; event_type = activated; actor_id = 9 } ∷ [])
deployment-activates_example =
    deployment-activates deploys_all job activating_pier dollar (600, 601) before_deployment
      (record {
        row = refl;
        waiting = refl;
        kept = refl;
        usdc_there = refl;
        new_symbol = refl;
        no_pair = refl;
        no_twin = refl;
      })
      refl
