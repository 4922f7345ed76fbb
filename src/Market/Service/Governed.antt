-- ===== src/Market/Service/Governed.antt =====
-- Which markets can be activated: the operations of marketBackend/src/services/marketService.ts in
-- any order.
use omen_backend.Base.{
  throw, external, ℕ, ◌≡◌, ◌∙◌, sym, subst, bind-ok, bind-err, refl, Bool, true, false, not, Option,
  none, some, insert, is_some, arith, Action, Done, ok, err, pure, throw_if, ◌>>=◌, ◌>>◌, app,
  market_not_found, market_not_approved, forbidden,
}
use omen_backend.Base.Keeps.{Keeps, keeps_rules, Keeps-throw, Keeps-throw_if}
use omen_backend.Market.Types.{
  MarketStatus, draft, pending_approval, approved, rejected, activating, active, paused, archived,
  Market, activation_started,
}
use omen_backend.Market.Store.{
  MarketState, CreateMarketInput, change_market, update_market_status, find_market,
  publish_market_event, add_deployment,
}
use omen_backend.Market.Service.{
  MarketAction, Decision, approve, reject, is_approved_status, get_market, deployment_of,
  start_activation, activate_market, assert_authorization, decide, process_approval_decision,
  register_as, register_market, pause_market, archive_market,
}
use omen_backend.Market.Service.Calls.{
  needs_approval, IsGoverned, AreGoverned, row-IsGoverned, insert-governed, Keeps-event, Keeps-job,
  Keeps-asset, Keeps-create, Keeps-status, Keeps-approve, Keeps-reject, Keeps-get, Keeps-request,
}

activated_row : ℕ → Market → MarketState → MarketState
activated_row id m s = record s { markets = insert id (record m { status = activating }) s.markets }

status-found :
    (id : ℕ) (s : MarketState) {m : Market}
    → s.markets id ≡ some m
    → update_market_status id activating s
      ≡ (ok (record m { status = activating }), activated_row id m s)
unfolding update_market_status change_market activated_row
status-found id s e = ground arith

get-found :
    (id : ℕ) (s : MarketState) {m : Market} → s.markets id ≡ some m → get_market id s ≡ (ok m, s)
unfolding get_market find_market
get-found id s e = ground arith

get-missing :
    (id : ℕ) (s : MarketState)
    → s.markets id ≡ none
    → get_market id s ≡ (err (app 404 market_not_found), s)
unfolding get_market find_market
get-missing id s e = ground arith

-- A market that is found approved goes on its way.
activating-governed :
    (id : ℕ) (s : MarketState) {m : Market}
    → AreGoverned s
    → s.markets id ≡ some m
    → is_approved_status m.status ≡ true
    → AreGoverned (activated_row id m s)
unfolding activated_row
activating-governed id s {m} g e a =
    insert-governed s id (record m { status = activating }) g
      (has_approver m.status refl (row-IsGoverned s id g e))
  where
    has_approver :
        (status : MarketStatus) → m.status ≡ status → IsGoverned m → is_some m.approved_by ≡ true
    has_approver approved e h = rw e at h
    has_approver draft e h = absurd (cc (rw e at a))
    has_approver pending_approval e h = absurd (cc (rw e at a))
    has_approver rejected e h = absurd (cc (rw e at a))
    has_approver activating e h = absurd (cc (rw e at a))
    has_approver active e h = absurd (cc (rw e at a))
    has_approver paused e h = absurd (cc (rw e at a))
    has_approver archived e h = absurd (cc (rw e at a))

Keeps-rest :
    (id admin : ℕ) (m updated : Market)
    → Keeps AreGoverned (
        publish_market_event id activation_started admin
        >> (add_deployment (deployment_of m admin) >> pure updated))
Keeps-rest id admin m updated = search (keeps_rules, Keeps-event, Keeps-job)

module _ (id admin : ℕ) (m : Market) (s : MarketState) (g : AreGoverned s)
    (e : s.markets id ≡ some m) where
  after_change : Market → Action MarketState Market
  after_change updated =
      publish_market_event id activation_started admin
      >> (add_deployment (deployment_of m admin) >> pure updated)

  start-governed :
      (b : Bool) → is_approved_status m.status ≡ b → AreGoverned (start_activation id admin m s).1
  unfolding start_activation after_change
  start-governed false a =
      subst (λ x. AreGoverned x.1)
        (sym (
          bind-err (throw_if (not (is_approved_status m.status)) (app 400 market_not_approved))
            (λ _. update_market_status id activating >>= after_change) s
            {e = app 400 market_not_approved} {s' = s} (ground arith)))
        g
  start-governed true a =
      subst (λ x. AreGoverned x.1)
        (sym (
          bind-ok (throw_if (not (is_approved_status m.status)) (app 400 market_not_approved))
            (λ _. update_market_status id activating >>= after_change) s {a = tt} {s' = s}
            (ground arith)
          ∙ bind-ok (update_market_status id activating) after_change s (status-found id s e)))
        ((Keeps-rest id admin m (record m { status = activating })).at (activated_row id m s)
          (activating-governed id s g e a))

activate-governed :
    (id admin : ℕ) (s : MarketState) → AreGoverned s → AreGoverned (activate_market id admin s).1
unfolding activate_market
activate-governed id admin s g = by_row (s.markets id) refl
  where
    by_row : (row : Option Market) → s.markets id ≡ row → AreGoverned (activate_market id admin s).1
    by_row none e =
        subst (λ x. AreGoverned x.1)
          (sym (bind-err (get_market id) (start_activation id admin) s (get-missing id s e))) g
    by_row (some m) e =
        subst (λ x. AreGoverned x.1)
          (sym (bind-ok (get_market id) (start_activation id admin) s (get-found id s e)))
          (start-governed id admin m s g e (is_approved_status m.status) refl)

Keeps-activate : (id admin : ℕ) → Keeps AreGoverned (activate_market id admin)
Keeps-activate id admin = record { at = activate-governed id admin }

Keeps-paused : (id : ℕ) → Keeps AreGoverned (update_market_status id paused)
Keeps-paused id = Keeps-status id paused refl

Keeps-archived : (id : ℕ) → Keeps AreGoverned (update_market_status id archived)
Keeps-archived id = Keeps-status id archived refl

module _ (authorize : (admin entity : ℕ) → MarketAction → Option Bool) where
  Keeps-authorize :
      (admin entity : ℕ) (action : MarketAction)
      → Keeps AreGoverned (assert_authorization authorize admin entity action)
  unfolding assert_authorization
  Keeps-authorize admin entity action = by_reply (authorize admin entity action)
    where
      by_reply :
          (r : Option Bool)
          → Keeps AreGoverned (elim r as (λ _. Action MarketState Done) [
            | none ↦ throw external
            | some allowed ↦ throw_if (not allowed) (app 403 forbidden)
          ])
      by_reply none = Keeps-throw external
      by_reply (some b) = Keeps-throw_if (not b) (app 403 forbidden)

  Keeps-decide :
      (id : ℕ) (d : Decision) (reason : Option ℕ) (admin : ℕ)
      → Keeps AreGoverned (decide authorize id d reason admin)
  unfolding decide
  Keeps-decide id approve reason admin =
      search (keeps_rules, Keeps-approve, Keeps-event, Keeps-activate)
  Keeps-decide id reject reason admin = search (keeps_rules, Keeps-reject, Keeps-event)

  Keeps-decision :
      (id : ℕ) (d : Decision) (reason : Option ℕ) (entity admin : ℕ)
      → Keeps AreGoverned (process_approval_decision authorize id d reason entity admin)
  unfolding process_approval_decision
  Keeps-decision id d reason entity admin =
      search (keeps_rules, Keeps-get, Keeps-authorize, Keeps-decide)

  Keeps-register :
      (input : CreateMarketInput) (entity admin : ℕ)
      → Keeps AreGoverned (register_market authorize input entity admin)
  unfolding register_market register_as
  Keeps-register input entity admin =
      search (keeps_rules, Keeps-authorize, Keeps-create, Keeps-asset, Keeps-event, Keeps-request)
        depth 10

  Keeps-pause : (id entity admin : ℕ) → Keeps AreGoverned (pause_market authorize id entity admin)
  unfolding pause_market
  Keeps-pause id entity admin = search (keeps_rules, Keeps-authorize, Keeps-paused, Keeps-event)

  Keeps-archive :
      (id entity admin : ℕ) → Keeps AreGoverned (archive_market authorize id entity admin)
  unfolding archive_market
  Keeps-archive id entity admin = search (keeps_rules, Keeps-authorize, Keeps-archived, Keeps-event)

  -- The calls of the service, whether they return or throw.
  pub data MarketStep : MarketState → MarketState → Type 0 where
    register :
        (input : CreateMarketInput) (entity admin : ℕ) (s : MarketState)
        → MarketStep s (register_market authorize input entity admin s).1
    decision :
        (id : ℕ) (d : Decision) (reason : Option ℕ) (entity admin : ℕ) (s : MarketState)
        → MarketStep s (process_approval_decision authorize id d reason entity admin s).1
    activate : (id admin : ℕ) (s : MarketState) → MarketStep s (activate_market id admin s).1
    pause :
        (id entity admin : ℕ) (s : MarketState)
        → MarketStep s (pause_market authorize id entity admin s).1
    archive :
        (id entity admin : ℕ) (s : MarketState)
        → MarketStep s (archive_market authorize id entity admin s).1

  pub data MarketReach (s : MarketState) : MarketState → Type 0 where
    here : MarketReach s s
    next : {s' s'' : MarketState} → MarketReach s s' → MarketStep s' s'' → MarketReach s s''

  step-governed : {s s' : MarketState} → MarketStep s s' → AreGoverned s → AreGoverned s'
  step-governed (register input entity admin s) g = (Keeps-register input entity admin).at s g
  step-governed (decision id d reason entity admin s) g =
      (Keeps-decision id d reason entity admin).at s g
  step-governed (activate id admin s) g = activate-governed id admin s g
  step-governed (pause id entity admin s) g = (Keeps-pause id entity admin).at s g
  step-governed (archive id entity admin s) g = (Keeps-archive id entity admin).at s g

  reach-governed : {s s' : MarketState} → AreGoverned s → MarketReach s s' → AreGoverned s'
  reach-governed g here = g
  reach-governed g (next r step) = step-governed step (reach-governed g r)

  -- In every state that the calls of the market service, whether they return or throw, reach in
  -- any order from one whose markets are so, a market that is approved, activating or active has
  -- an approver.
  pub MarketReach-approved :
      {s s' : MarketState} (id : ℕ) {m : Market}
      → AreGoverned s
      → MarketReach s s'
      → s'.markets id ≡ some m
      → needs_approval m.status ≡ true
      → is_some m.approved_by ≡ true
  MarketReach-approved {s'} id {m} g r e h =
      let k = row-IsGoverned s' id (reach-governed g r) e in ground arith
