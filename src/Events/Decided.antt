-- ===== src/Events/Decided.antt =====
-- The approval that a webhook brings: handleMarketApprovalDecision of
-- marketBackend/src/controllers/webhookController.ts, with the market service that carries it out.
use omen_backend.Base.{
  ℕ, ◌≡◌, ◌∙◌, refl, Bool, true, Option, none, some, [], ◌∷◌, ◌++◌, insert, Action, Done, ok, err,
  Error, app, external, pure, throw, catch-ok, catch-err, bind-ok, bind-err, ◌>>◌, not, throw_if,
  invalid_market_status, arith,
}
use omen_backend.Market.Types.{
  pending_approval, activating, Market, was_approved, activation_started,
}
use omen_backend.Market.Store.{MarketState, find_market, publish_market_event}
use omen_backend.Market.Service.{
  MarketAction, approve_action, approve, deployment_of, process_approval_decision,
  is_pending_approval, get_market, assert_authorization, decide,
}
use omen_backend.Market.Service.Decisions.{
  approved_by_admin, after_activation, approved_decision, finds,
}
use omen_backend.Events.Store.{
  ProcessingStatus, success, failed, ProcessedEvent, market_approved, EventState, on_market,
  is_event_processed, record_processed_event, upserted, handle_entity_permission_decision,
}
use omen_backend.Events.Webhook.{
  Payload, approved_text, WebhookBody, answer_of, received, refused,
  handle_market_approval_decision, route_event, process_event, receive_event, respond,
  handle_entity_permissions_webhook,
}
use omen_backend.Events.Delivered.{event_with, Carries, respond-reaches}

abbrev pub approval_of : (market_id entity_id : ℕ) → Option ℕ → Payload
approval_of id entity reason = record {
  market_id = some id;
  entity_id = entity;
  decision = some approved_text;
  reason = reason;
}

-- The state in which the broker has announced the approval.
abbrev pub announced : ℕ → ℕ → MarketState → MarketState
announced id admin w = record w {
  events = w.events ++ record { market_id = id; event_type = was_approved; actor_id = admin } ∷ [];
}

abbrev pub processed_as : ℕ → ProcessingStatus → ProcessedEvent
processed_as id status = record {
  event_id = id;
  event_type = market_approved;
  processing_status = status;
}

module _ (authorize : (admin entity : ℕ) → MarketAction → Option Bool) (id market entity admin : ℕ)
    (reason : Option ℕ) (m : Market) (s : EventState) (row : s.market.markets market ≡ some m) where
  -- The market's id, the entity's and the reason are those of the payload.
  abbrev payload : Payload
  payload = approval_of market entity reason

  broker-goes :
      handle_entity_permission_decision market approve (some admin) s.market
      ≡ (ok tt, announced market admin s.market)
  unfolding handle_entity_permission_decision find_market publish_market_event
  broker-goes = ground (arith, row)

  abbrev service : Action EventState Market
  service = on_market (process_approval_decision authorize market approve reason entity admin)

  handle-reaches :
      handle_market_approval_decision authorize payload (some admin) s
      ≡ (service >> pure tt) (record s { market = announced market admin s.market })
  unfolding handle_market_approval_decision
  handle-reaches =
      let broker : Action EventState Done =
        on_market (handle_entity_permission_decision market approve (some admin)) in
      bind-ok broker (λ _. service >> pure tt) s {a = tt}
        {s' = record s { market = announced market admin s.market }}
        (λ i. ((broker-goes i).0, record s { market = (broker-goes i).1 }))

  receive-new :
      s.processed id ≡ none
      → receive_event authorize id market_approved payload (some admin) s
        ≡ (process_event authorize id market_approved payload (some admin) >> pure received) s
  unfolding receive_event is_event_processed
  receive-new new = rw new refl

  -- The state in which the decision is recorded.
  abbrev recorded_in : ProcessingStatus → MarketState → EventState
  recorded_in status w = record {
    market = w;
    processed = insert id (upserted (processed_as id status) (s.processed id)) s.processed;
  }

  note-goes :
      (status : ProcessingStatus) (w : MarketState)
      → record_processed_event (processed_as id status) (record s { market = w })
        ≡ (ok tt, recorded_in status w)
  unfolding record_processed_event
  note-goes status w = refl

  -- What the webhook answers once the service returned, and once it threw.
  webhook-received :
      (body : WebhookBody) (b : Market) (w : MarketState)
      → Carries body (event_with id market_approved payload (some admin))
      → s.processed id ≡ none
      → process_approval_decision authorize market approve reason entity admin
          (announced market admin s.market)
        ≡ (ok b, w)
      → handle_entity_permissions_webhook authorize body s ≡ (ok received, recorded_in success w)
  unfolding handle_entity_permissions_webhook process_event route_event
  webhook-received body b w brings new goes =
      let at_service = record s { market = announced market admin s.market } in
      let handle : Action EventState Done =
        handle_market_approval_decision authorize payload (some admin) in
      let decided : handle s ≡ (ok tt, record s { market = w }) =
        handle-reaches
        ∙ bind-ok service (λ _. pure tt) at_service {a = b} {s' = record s { market = w }}
            (λ i. ((goes i).0, record s { market = (goes i).1 })) in
      let routed =
        bind-ok handle (λ _. record_processed_event (processed_as id success)) s decided
        ∙ note-goes success w in
      let process : Action EventState Done =
        process_event authorize id market_approved payload (some admin) in
      let processed : process s ≡ (ok tt, recorded_in success w) =
        catch-ok (route_event authorize id market_approved payload (some admin))
          (λ e. record_processed_event (processed_as id failed) >> throw e) s routed in
      catch-ok (respond authorize body) (λ e. pure (answer_of e)) s
        (respond-reaches authorize id market_approved payload (some admin) body s brings
          ∙ receive-new new
          ∙ bind-ok process (λ _. pure received) s processed)

  webhook-refused :
      (body : WebhookBody) (e : Error) (w : MarketState)
      → Carries body (event_with id market_approved payload (some admin))
      → s.processed id ≡ none
      → process_approval_decision authorize market approve reason entity admin
          (announced market admin s.market)
        ≡ (err e, w)
      → handle_entity_permissions_webhook authorize body s
        ≡ (ok (answer_of e), recorded_in failed w)
  unfolding handle_entity_permissions_webhook process_event route_event
  webhook-refused body e w brings new stops =
      let at_service = record s { market = announced market admin s.market } in
      let handle : Action EventState Done =
        handle_market_approval_decision authorize payload (some admin) in
      let decided : handle s ≡ (err e, record s { market = w }) =
        handle-reaches
        ∙ bind-err service (λ _. pure tt) at_service {s' = record s { market = w }}
            (λ i. ((stops i).0, record s { market = (stops i).1 })) in
      let routed =
        bind-err handle (λ _. record_processed_event (processed_as id success)) s decided in
      let process : Action EventState Done =
        process_event authorize id market_approved payload (some admin) in
      let processed : process s ≡ (err e, recorded_in failed w) =
        catch-err (route_event authorize id market_approved payload (some admin))
          (λ x. record_processed_event (processed_as id failed) >> throw x) s routed
        ∙ bind-ok (record_processed_event (processed_as id failed)) (λ _. throw e)
            (record s { market = w }) (note-goes failed w) in
      catch-err (respond authorize body) (λ x. pure (answer_of x)) s
        (respond-reaches authorize id market_approved payload (some admin) body s brings
          ∙ receive-new new
          ∙ bind-err process (λ _. pure received) s processed)

  stops :
      (w : MarketState)
      → authorize admin entity approve_action ≡ none
      → assert_authorization authorize admin entity approve_action w ≡ (err external, w)
  unfolding assert_authorization
  stops w a = ground arith

  refuses :
      m.status ≡ pending_approval
      → authorize admin entity approve_action ≡ none
      → process_approval_decision authorize market approve reason entity admin
          (announced market admin s.market)
        ≡ (err external, announced market admin s.market)
  unfolding process_approval_decision
  refuses h a =
      let w = announced market admin s.market in
      let guard : Market → Action MarketState Done =
        λ x. throw_if (not (is_pending_approval x.status)) (app 400 invalid_market_status) in
      let permit : Action MarketState Done =
        assert_authorization authorize admin entity approve_action in
      let decided : Action MarketState Market = decide authorize market approve reason admin in
      bind-ok (get_market market) (λ x. guard x >> (permit >> decided)) w
        (finds market admin m w row)
      ∙ bind-ok (guard m) (λ _. permit >> decided) w {a = tt} {s' = w} (rw h refl)
      ∙ bind-err permit (λ _. decided) w (stops w a)

  -- A webhook that brings an approval with an actor, for a market that waits for it and under an
  -- event id that was not processed before, is answered with received if the permissions service
  -- allows it: the market is activating with its approver, one deployment is queued, and the event
  -- is recorded as a success. The approval is in the market's history twice, since the broker and
  -- the service announce it.
  pub webhook-approves :
      (body : WebhookBody)
      → Carries body (event_with id market_approved payload (some admin))
      → s.processed id ≡ none
      → m.status ≡ pending_approval
      → authorize admin entity approve_action ≡ some true
      → let (r, s') = handle_entity_permissions_webhook authorize body s in
        (r ≡ ok received)
        × (s'.market.markets market
            ≡ some (record (approved_by_admin m admin) { status = activating }))
        × (s'.market.jobs ≡ deployment_of (approved_by_admin m admin) admin ∷ s.market.jobs)
        × (s'.processed id ≡ some (processed_as id success))
        × (s'.market.events ≡ (
            ((s.market.events
                ++ record { market_id = market; event_type = was_approved; actor_id = admin } ∷ [])
              ++ record { market_id = market; event_type = was_approved; actor_id = admin } ∷ [])
            ++ record { market_id = market; event_type = activation_started; actor_id = admin }
              ∷ []))
  webhook-approves body brings new waiting allowed =
      let w = announced market admin s.market in
      rw
        (
          webhook-received body (approved_by_admin m admin) (after_activation market admin m w)
              brings new
              (approved_decision market admin m w authorize reason entity row waiting allowed),
          new,
        )
        (refl, ground arith, refl, ground arith, refl)

  -- If the permissions service cannot be reached for a webhook that brings an approval with an
  -- actor, for a market that waits for it and under an event id that was not processed before, it
  -- is answered with status 500 and recorded as failed, and the market is as it was and nothing is
  -- queued; the history says nevertheless that the market was approved.
  pub webhook-fails :
      (body : WebhookBody)
      → Carries body (event_with id market_approved payload (some admin))
      → s.processed id ≡ none
      → m.status ≡ pending_approval
      → authorize admin entity approve_action ≡ none
      → let (r, s') = handle_entity_permissions_webhook authorize body s in
        (r ≡ ok (refused 500 none))
        × (s'.market.markets ≡ s.market.markets)
        × (s'.market.jobs ≡ s.market.jobs)
        × (s'.processed id ≡ some (processed_as id failed))
        × (s'.market.events
            ≡ s.market.events
              ++ record { market_id = market; event_type = was_approved; actor_id = admin } ∷ [])
  webhook-fails body brings new waiting unreachable =
      rw
        (
          webhook-refused body external (announced market admin s.market) brings new
              (refuses waiting unreachable),
          new,
        )
        (refl, refl, refl, ground arith, refl)
