-- ===== src/Deployment/Activated.antt =====
-- A deployment that goes through: handleTokenDeployment of
-- marketBackend/src/infra/queue/tokenDeploymentHandler.ts.
use omen_backend.Base.{
  any-append, any-find, ℕ, ◌+◌, ◌≡◌, ◌∙◌, refl, true, false, Option, none, some, [], ◌∷◌, ◌++◌, pos,
  any, find, ◌&&◌, ◌==◌, Action, Done, ok, catch-ok, bind-ok, ◌>>=◌, ◌>>◌, pure, arith,
}
use omen_backend.Token.Store.{Token, rwa, create_token, find_token_by_symbol}
use omen_backend.Market.Types.{activating, active, activated, Market}
use omen_backend.Market.Store.{DeploymentJob, find_market, change_market, publish_market_event}
use omen_backend.Trading.Types.{TradingPair}
use omen_backend.Deployment.Store.{
  DeployState, on_market, sapphire, set_active, is_market, find_trading_pair_by_market_id,
  create_trading_pair, find_or_create_token, get_or_create_usdc_token,
}
use omen_backend.Deployment.Worker.{
  Deployer, symbol_of, deploy_token, market_token, ensure_pair, finish_activation, deploy_market,
  handle_deployment_failure, handle_token_deployment,
}
use omen_backend.Deployment.Outcome.{with_market}

-- The market, the token and the pair that a deployment leaves.
abbrev pub active_market : ℕ × ℕ → Market → Market
active_market (address, tx_hash) m = record m {
  status = active;
  contract_address = some address;
  deployment_tx_hash = some tx_hash;
}

abbrev pub new_token : DeploymentJob → ℕ → ℕ → Token
new_token job address id = record {
  id = id;
  token_symbol = symbol_of job;
  token_type = rwa;
  contract_address = some address;
  blockchain = sapphire;
  decimals = 18;
  total_supply = some job.total_supply;
  is_active = true;
}

abbrev pub new_pair : DeploymentJob → (id base quote : ℕ) → TradingPair
new_pair job id base quote = record {
  id = id;
  market_id = some job.market_id;
  base_token_id = base;
  quote_token_id = quote;
  is_active = true;
  min_order_size = some (pos 1);
  max_order_size = some (pos job.total_supply);
}

-- A job whose market is being activated, with a symbol and a market that are new to the tokens and
-- the pairs, while the USDC token is known and in the table.
pub record CanActivate (job : DeploymentJob) (m : Market) (usdc : Token) (s : DeployState)
    : Type 0 where
  pub row : s.market.markets job.market_id ≡ some m
  pub waiting : m.status ≡ activating
  pub kept : s.usdc_token ≡ some usdc
  pub usdc_there : any (λ (t : Token). t.id == usdc.id) s.ledger.tokens ≡ true
  pub new_symbol : find (λ (t : Token). t.token_symbol == symbol_of job) s.ledger.tokens ≡ none
  pub no_pair : find (λ (p : TradingPair). is_market job.market_id p.market_id) s.pairs ≡ none
  pub no_twin :
      any
        (λ (p : TradingPair). p.base_token_id == s.ledger.next_id && p.quote_token_id == usdc.id)
        s.pairs
      ≡ false

module _ (deployer : Deployer) (job : DeploymentJob) (m : Market) (usdc : Token) (contract : ℕ × ℕ)
    (s : DeployState) where
  abbrev token : Token
  token = new_token job contract.0 s.ledger.next_id

  -- The states after each step.
  abbrev deployed_state : DeployState
  deployed_state = record s { deployed = symbol_of job ∷ s.deployed }

  abbrev active_state : DeployState
  active_state = with_market job.market_id (active_market contract m) deployed_state

  abbrev token_state : DeployState
  token_state = record active_state {
    ledger = record s.ledger {
      tokens = s.ledger.tokens ++ token ∷ [];
      next_id = s.ledger.next_id + 1;
    };
  }

  abbrev pair_state : DeployState
  pair_state = record token_state {
    pairs = s.pairs ++ new_pair job s.next_pair s.ledger.next_id usdc.id ∷ [];
    next_pair = s.next_pair + 1;
  }

  abbrev pub activated_state : DeployState
  activated_state = record pair_state {
    market = record pair_state.market {
      events =
          s.market.events
          ++ record { market_id = job.market_id; event_type = activated; actor_id = job.actor_id }
            ∷ [];
    };
  }

module _ (deployer : Deployer) (job : DeploymentJob) (m : Market) (usdc : Token) (contract : ℕ × ℕ)
    (s : DeployState) (can : CanActivate job m usdc s) where
  deploys :
      deployer s.deployed (symbol_of job) ≡ some contract
      → deploy_token deployer (symbol_of job) s
        ≡ (ok contract, deployed_state deployer job m usdc contract s)
  unfolding deploy_token
  deploys up = ground (arith, up)

  sets_active :
      on_market
        (set_active job.market_id contract.0 contract.1)
        (deployed_state deployer job m usdc contract s)
      ≡ (ok (active_market contract m), active_state deployer job m usdc contract s)
  unfolding set_active change_market
  sets_active = ground (arith, can.row)

  makes_token :
      market_token job contract.0 (active_state deployer job m usdc contract s)
      ≡ (ok (token deployer job m usdc contract s), token_state deployer job m usdc contract s)
  unfolding market_token find_or_create_token find_token_by_symbol create_token
  makes_token = ground (
    arith,
    can.new_symbol,
    any-find (λ (t : Token). t.token_symbol == symbol_of job) s.ledger.tokens can.new_symbol,
  )

  knows_usdc :
      (st : DeployState) → st.usdc_token ≡ some usdc → get_or_create_usdc_token st ≡ (ok usdc, st)
  unfolding get_or_create_usdc_token
  knows_usdc st e = rw e refl

  finds_none :
      find_trading_pair_by_market_id job.market_id (token_state deployer job m usdc contract s)
      ≡ (ok none, token_state deployer job m usdc contract s)
  unfolding find_trading_pair_by_market_id
  finds_none i = (ok (can.no_pair i), token_state deployer job m usdc contract s)

  base_there :
      any
        (λ (t : Token). t.id == s.ledger.next_id)
        (s.ledger.tokens ++ token deployer job m usdc contract s ∷ [])
      ≡ true
  base_there =
      any-append (λ (t : Token). t.id == s.ledger.next_id) s.ledger.tokens
        (token deployer job m usdc contract s ∷ [])
      ∙ ground arith

  quote_there :
      any
        (λ (t : Token). t.id == usdc.id)
        (s.ledger.tokens ++ token deployer job m usdc contract s ∷ [])
      ≡ true
  quote_there =
      any-append (λ (t : Token). t.id == usdc.id) s.ledger.tokens
        (token deployer job m usdc contract s ∷ [])
      ∙ ground (arith, can.usdc_there)

  creates :
      create_trading_pair job.market_id s.ledger.next_id usdc.id
        (pos job.total_supply)
        (token_state deployer job m usdc contract s)
      ≡ (
        ok (new_pair job s.next_pair s.ledger.next_id usdc.id),
        pair_state deployer job m usdc contract s,
      )
  unfolding create_trading_pair
  creates = ground (arith, can.no_twin, base_there, quote_there)

  makes_pair :
      ensure_pair job
        (token deployer job m usdc contract s)
        usdc
        (token_state deployer job m usdc contract s)
      ≡ (ok tt, pair_state deployer job m usdc contract s)
  unfolding ensure_pair
  makes_pair =
      let create : Action DeployState TradingPair =
        create_trading_pair job.market_id s.ledger.next_id usdc.id (pos job.total_supply) in
      let rest : Option TradingPair → Action DeployState Done =
        λ existing. elim existing [ some pair ↦ pure tt | none ↦ create >> pure tt ] in
      let st = token_state deployer job m usdc contract s in
      bind-ok (find_trading_pair_by_market_id job.market_id) rest st finds_none
      ∙ bind-ok create (λ _. pure tt) st creates

  finishes :
      finish_activation job contract (deployed_state deployer job m usdc contract s)
      ≡ (ok tt, activated_state deployer job m usdc contract s)
  unfolding finish_activation publish_market_event
  finishes =
      let publish : Action DeployState Done =
        on_market (publish_market_event job.market_id activated job.actor_id) in
      let pairing : Token → Token → Action DeployState Done =
        λ t u. ensure_pair job t u >> publish in
      let tokens : Token → Action DeployState Done = λ t. get_or_create_usdc_token >>= pairing t in
      let t = token deployer job m usdc contract s in
      let st = token_state deployer job m usdc contract s in
      bind-ok (on_market (set_active job.market_id contract.0 contract.1))
        (λ _. market_token job contract.0 >>= tokens)
        (deployed_state deployer job m usdc contract s) sets_active
      ∙ bind-ok (market_token job contract.0) tokens (active_state deployer job m usdc contract s)
          makes_token
      ∙ bind-ok get_or_create_usdc_token (pairing t) st (knows_usdc st can.kept)
      ∙ bind-ok (ensure_pair job t usdc) (λ _. publish) st makes_pair

  tries :
      deployer s.deployed (symbol_of job) ≡ some contract
      → deploy_market deployer job s ≡ (ok tt, activated_state deployer job m usdc contract s)
  unfolding deploy_market find_market
  tries up =
      rw (can.row, can.waiting)
        (bind-ok (deploy_token deployer (symbol_of job)) (finish_activation job) s (deploys up)
          ∙ finishes)

  -- A job whose market is being activated, with a symbol and a market that are new, ends well if
  -- the deployer answers and the USDC token is known and in the tokens table: it returns, the
  -- market is active at the address of the contract, its token is recorded with that address, one
  -- active pair of the token with USDC is there for the market, and the history says that it was
  -- activated.
  pub deployment-activates :
      deployer s.deployed (symbol_of job) ≡ some contract
      → let (r, s') = handle_token_deployment deployer job s in
        (r ≡ ok tt)
        × (s'.market.markets job.market_id ≡ some (active_market contract m))
        × (s'.ledger.tokens ≡ s.ledger.tokens ++ new_token job contract.0 s.ledger.next_id ∷ [])
        × (s'.pairs ≡ s.pairs ++ new_pair job s.next_pair s.ledger.next_id usdc.id ∷ [])
        × (s'.market.events
            ≡ s.market.events
              ++ record {
                market_id = job.market_id;
                event_type = activated;
                actor_id = job.actor_id;
              }
                ∷ [])
  unfolding handle_token_deployment
  deployment-activates up =
      rw (catch-ok (deploy_market deployer job) (handle_deployment_failure job) s (tries up))
        (refl, ground arith, refl, refl, refl)
