-- ===== src/Market/Service/Decisions.antt =====
-- What an approval, a pause and an archival do to a market: processApprovalDecision, pauseMarket and
-- archiveMarket of marketBackend/src/services/marketService.ts.
use omen_backend.Base.{
  ℕ, ◌≡◌, ◌∙◌, refl, Bool, true, not, Option, some, [], ◌∷◌, ◌++◌, insert, arith, bind-ok, Action,
  Done, ok, pure, throw_if, ◌>>◌, app, invalid_market_status,
}
use omen_backend.Market.Types.{
  pending_approval, approved, activating, paused, Market, was_approved, activation_started,
}
use omen_backend.Market.Store.{
  MarketState, change_market, update_market_status, approve_market, find_market,
  publish_market_event, add_deployment,
}
use omen_backend.Market.Service.{
  MarketAction, approve_action, pause_action, approve, is_pending_approval, get_market,
  deployment_of, start_activation, activate_market, assert_authorization, decide,
  process_approval_decision, pause_market,
}

abbrev pub approved_by_admin : Market → ℕ → Market
approved_by_admin m admin = record m { status = approved; approved_by = some admin }

module _ (id admin : ℕ) (m : Market) (s : MarketState) where
  abbrev after_approval : MarketState
  after_approval = record s {
    markets = insert id (approved_by_admin m admin) s.markets;
    events =
        s.events ++ record { market_id = id; event_type = was_approved; actor_id = admin } ∷ [];
  }

  abbrev pub after_activation : MarketState
  after_activation = record s {
    markets =
        insert id (record (approved_by_admin m admin) { status = activating })
          (insert id (approved_by_admin m admin) s.markets);
    events =
        (s.events ++ record { market_id = id; event_type = was_approved; actor_id = admin } ∷ [])
        ++ record { market_id = id; event_type = activation_started; actor_id = admin } ∷ [];
    jobs = deployment_of (approved_by_admin m admin) admin ∷ s.jobs;
  }

  activates :
      activate_market id admin after_approval
      ≡ (ok (record (approved_by_admin m admin) { status = activating }), after_activation)
  unfolding activate_market start_activation get_market find_market update_market_status
      change_market publish_market_event add_deployment
  activates = ground arith

  approves :
      s.markets id ≡ some m
      → approve_market id admin s ≡ (
        ok (approved_by_admin m admin),
        record s { markets = insert id (approved_by_admin m admin) s.markets },
      )
  unfolding approve_market change_market
  approves e = ground arith

  pub finds : s.markets id ≡ some m → get_market id s ≡ (ok m, s)
  unfolding get_market find_market
  finds e = ground arith

  pub permits :
      (authorize : (admin entity : ℕ) → MarketAction → Option Bool) (entity : ℕ)
      → authorize admin entity approve_action ≡ some true
      → assert_authorization authorize admin entity approve_action s ≡ (ok tt, s)
  unfolding assert_authorization
  permits authorize entity a = ground arith

  decides :
      (authorize : (admin entity : ℕ) → MarketAction → Option Bool) (reason : Option ℕ)
      → s.markets id ≡ some m
      → decide authorize id approve reason admin s
        ≡ (ok (approved_by_admin m admin), after_activation)
  unfolding decide publish_market_event
  decides authorize reason e =
      bind-ok (approve_market id admin)
        (λ updated.
          publish_market_event id was_approved admin >> (activate_market id admin >> pure updated))
        s (approves e)
      ∙ bind-ok (activate_market id admin) (λ _. pure (approved_by_admin m admin)) after_approval
          activates

  pub approved_decision :
      (authorize : (admin entity : ℕ) → MarketAction → Option Bool) (reason : Option ℕ) (entity : ℕ)
      → s.markets id ≡ some m
      → m.status ≡ pending_approval
      → authorize admin entity approve_action ≡ some true
      → process_approval_decision authorize id approve reason entity admin s
        ≡ (ok (approved_by_admin m admin), after_activation)
  unfolding process_approval_decision
  approved_decision authorize reason entity e h a =
      let guard : Market → Action MarketState Done =
        λ x. throw_if (not (is_pending_approval x.status)) (app 400 invalid_market_status) in
      let permit : Action MarketState Done =
        assert_authorization authorize admin entity approve_action in
      let decided : Action MarketState Market = decide authorize id approve reason admin in
      bind-ok (get_market id) (λ x. guard x >> (permit >> decided)) s (finds e)
      ∙ bind-ok (guard m) (λ _. permit >> decided) s {a = tt} {s' = s} (rw h refl)
      ∙ bind-ok permit (λ _. decided) s (permits authorize entity a)
      ∙ decides authorize reason e

-- An authorized approval of a market that waits for it returns the approved market; the market's
-- row has the approver and is on its way already, and one job is queued to deploy its token.
pub process_approval_decision-approve :
    (authorize : (admin entity : ℕ) → MarketAction → Option Bool) (id : ℕ) (reason : Option ℕ)
    (entity admin : ℕ) (m : Market) (s : MarketState)
    → s.markets id ≡ some m
    → m.status ≡ pending_approval
    → authorize admin entity approve_action ≡ some true
    → let (r, s') = process_approval_decision authorize id approve reason entity admin s in
      (r ≡ ok (approved_by_admin m admin))
      × (s'.markets id ≡ some (record (approved_by_admin m admin) { status = activating }))
      × (s'.jobs ≡ deployment_of (approved_by_admin m admin) admin ∷ s.jobs)
process_approval_decision-approve authorize id reason entity admin m s e h a =
    rw (approved_decision id admin m s authorize reason entity e h a) (refl, ground arith, refl)

-- An authorized pause sets every market that exists to paused, whatever its status was, with a
-- rejected one and one that nobody approved among them.
pub pause_market-any :
    (authorize : (admin entity : ℕ) → MarketAction → Option Bool) (id entity admin : ℕ) (m : Market)
    (s : MarketState)
    → s.markets id ≡ some m
    → authorize admin entity pause_action ≡ some true
    → let (r, s') = pause_market authorize id entity admin s in
      (r ≡ ok (record m { status = paused }))
      × (s'.markets id ≡ some (record m { status = paused }))
unfolding pause_market assert_authorization update_market_status change_market publish_market_event
pause_market-any authorize id entity admin m s e a = ground arith
