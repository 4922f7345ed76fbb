-- ===== src/Deployment/Outcome.antt =====
-- How a deployment ends: handleTokenDeployment of
-- marketBackend/src/infra/queue/tokenDeploymentHandler.ts.
use omen_backend.Base.{
  ℕ, ◌≡◌, ◌∙◌, refl, sym, subst, none, some, insert, ok, err, external, valid_event_type, catch-ok,
  catch-err, bind-err, arith,
}
use omen_backend.Market.Types.{approved, activating, Market}
use omen_backend.Market.Store.{DeploymentJob, find_market, update_market_status, change_market}
use omen_backend.Deployment.Store.{DeployState}
use omen_backend.Deployment.Worker.{
  Deployer, symbol_of, deploy_token, deploy_market, finish_activation, handle_deployment_failure,
  handle_token_deployment,
}

abbrev pub with_market : ℕ → Market → DeployState → DeployState
with_market id m s = record s {
  market = record s.market { markets = insert id m s.market.markets };
}

module _ (deployer : Deployer) (job : DeploymentJob) (m : Market) (s : DeployState)
    (row : s.market.markets job.market_id ≡ some m) where
  deploy_throws :
      deployer s.deployed (symbol_of job) ≡ none
      → deploy_token deployer (symbol_of job) s ≡ (err external, s)
  unfolding deploy_token
  deploy_throws down = ground (arith, down)

  try-throws :
      m.status ≡ activating
      → deployer s.deployed (symbol_of job) ≡ none
      → deploy_market deployer job s ≡ (err external, s)
  unfolding deploy_market find_market
  try-throws h down =
      rw (row, h)
        (bind-err (deploy_token deployer (symbol_of job)) (finish_activation job) s
          (deploy_throws down))

  gives_up :
      handle_deployment_failure job external s
      ≡ (err valid_event_type, with_market job.market_id (record m { status = approved }) s)
  unfolding handle_deployment_failure update_market_status change_market
  gives_up = ground (arith, row)

module _ (deployer : Deployer) (job : DeploymentJob) (m : Market) (s : DeployState) where
  skips :
      s.market.markets job.market_id ≡ some m
      → m.status ≡ approved
      → handle_token_deployment deployer job s ≡ (ok tt, s)
  unfolding handle_token_deployment deploy_market find_market
  skips row h =
      catch-ok (deploy_market deployer job) (handle_deployment_failure job) s (rw (row, h) refl)

-- A deployment that throws is not tried again: the job throws the violated constraint of the event
-- that it publishes and leaves the market approved, with nothing else changed; each later attempt
-- of the job, whatever the deployer would answer, returns without a deployment and changes
-- nothing.
pub deployment-abandons :
    (deployer later : Deployer) (job : DeploymentJob) (m : Market) (s : DeployState)
    → s.market.markets job.market_id ≡ some m
    → m.status ≡ activating
    → deployer s.deployed (symbol_of job) ≡ none
    → let (r, s') = handle_token_deployment deployer job s in
      (r ≡ err valid_event_type)
      × (s' ≡ with_market job.market_id (record m { status = approved }) s)
      × (handle_token_deployment later job s' ≡ (ok tt, s'))
unfolding handle_token_deployment
deployment-abandons deployer later job m s row h down =
    let s' = with_market job.market_id (record m { status = approved }) s in
    let run =
      catch-err (deploy_market deployer job) (handle_deployment_failure job) s
        (try-throws deployer job m s row h down)
      ∙ gives_up deployer job m s row in
    subst
      (λ x.
        (x.0 ≡ err valid_event_type)
        × (x.1 ≡ with_market job.market_id (record m { status = approved }) s)
        × (handle_token_deployment later job x.1 ≡ (ok tt, x.1)))
      (sym run)
      (refl, refl, skips later job (record m { status = approved }) s' (ground arith) refl)
