-- ===== src/Deployment/Worker.antt =====
-- `handleTokenDeployment` of marketBackend/src/infra/queue/tokenDeploymentHandler.ts. The answer of
-- `SapphireTokenClient.deployToken` is a parameter: from the deployments so far and the symbol, the
-- address and the hash of the new contract, or it throws (`none`).
use omen_backend.Base.{
  ℕ, Bool, true, false, Option, none, some, List, ◌∷◌, pos, Action, Done, pure, throw, gets, modify,
  catch, or_throw, if◌then◌else◌, Error, ◌>>=◌, ◌>>◌, external, market_row_missing,
  valid_event_type,
}
use omen_backend.Token.Store.{Token, rwa, create_token}
use omen_backend.Market.Types.{MarketStatus, approved, activating, activated}
use omen_backend.Market.Store.{
  DeploymentJob, update_market_status, find_market, publish_market_event,
}
use omen_backend.Market.Service.{or_default}
use omen_backend.Deployment.Store.{
  DeployState, on_market, on_ledger, rwa_symbol, sapphire, set_active,
  find_trading_pair_by_market_id, create_trading_pair, find_or_create_token,
  get_or_create_usdc_token,
}

abbrev pub Deployer : Type 0
Deployer = List ℕ → ℕ → Option (ℕ × ℕ)

abbrev pub is_activating : MarketStatus → Bool
is_activating activating = true
is_activating _ = false

abbrev pub symbol_of : DeploymentJob → ℕ
symbol_of job = or_default job.token_symbol rwa_symbol

unfoldable pub deploy_token : Deployer → ℕ → Action DeployState (ℕ × ℕ)
deploy_token deployer symbol = do
  before ← gets (λ s. s.deployed)
  elim (deployer before symbol) [
    | none ↦ throw external
    | some contract ↦ do modify λ s. record s { deployed = symbol ∷ s.deployed }; pure contract
  ]

unfoldable pub market_token : DeploymentJob → ℕ → Action DeployState Token
unfolding find_or_create_token
market_token job address = on_ledger (
    find_or_create_token (symbol_of job) (
      create_token (record {
        token_symbol = symbol_of job;
        token_type = rwa;
        contract_address = some address;
        blockchain = sapphire;
        decimals = some 18;
        total_supply = some job.total_supply;
      })))

unfoldable pub ensure_pair : DeploymentJob → Token → Token → Action DeployState Done
ensure_pair job token usdc = do
  existing ← find_trading_pair_by_market_id job.market_id
  elim existing [
    | some pair ↦ pure tt
    | none ↦ create_trading_pair job.market_id token.id usdc.id (pos job.total_supply) >> pure tt
  ]

-- What follows the deployment.
unfoldable pub finish_activation : DeploymentJob → ℕ × ℕ → Action DeployState Done
finish_activation job contract = do
  on_market (set_active job.market_id contract.0 contract.1)
  token ← market_token job contract.0
  usdc ← get_or_create_usdc_token
  ensure_pair job token usdc
  on_market (publish_market_event job.market_id activated job.actor_id)

-- The body of `try`.
unfoldable pub deploy_market : Deployer → DeploymentJob → Action DeployState Done
deploy_market deployer job = do
  found ← on_market (find_market job.market_id)
  market ← or_throw found market_row_missing
  (if is_activating market.status
      then (deploy_token deployer (symbol_of job) >>= finish_activation job)
      else pure tt)

-- The body of `catch`: the type 'market.activation_failed' violates the constraint
-- valid_event_type, so that the INSERT of the event throws and the last line is not reached.
unfoldable pub handle_deployment_failure : DeploymentJob → Error → Action DeployState Done
handle_deployment_failure job error = do
  on_market (update_market_status job.market_id approved)
  throw valid_event_type

unfoldable pub handle_token_deployment : Deployer → DeploymentJob → Action DeployState Done
handle_token_deployment deployer job =
    catch (deploy_market deployer job) (handle_deployment_failure job)
