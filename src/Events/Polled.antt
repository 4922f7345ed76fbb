-- ===== src/Events/Polled.antt =====
-- Events that are polled before they are delivered: processEntityPermissionEvent of
-- marketBackend/src/services/eventListenerService.ts, then handleEntityPermissionsWebhook of
-- marketBackend/src/controllers/webhookController.ts.
use omen_backend.Base.{
  ℕ, ◌≡◌, ◌∙◌, refl, sym, subst, Bool, false, Option, some, is_some, Action, Done, Result, ok, err,
  catch, catch-ok, catch-err, bind-ok, bind-err, ◌>>◌, arith,
}
use omen_backend.Base.Keeps.{Keeps, keeps_rules}
use omen_backend.Market.Store.{MarketState, find_market, publish_market_event}
use omen_backend.Market.Service.{MarketAction, Decision}
use omen_backend.Events.Store.{
  ProcessingStatus, success, failed, ProcessedEvent, ExternalEventType, EventState, on_market,
  is_event_processed, record_processed_event, handle_entity_permission_decision,
}
use omen_backend.Events.Webhook.{
  Payload, WebhookBody, already_processed, handle_entity_permissions_webhook,
}
use omen_backend.Events.Polling.{
  PolledEvent, polled_decision, process_polled, process_entity_permission_event,
}
use omen_backend.Events.Delivered.{
  event_with, Carries, IsProcessed, record-IsProcessed, webhook-again,
}

-- The markets and the deployment queue are as in `w`.
abbrev pub IsUndecided : MarketState → EventState → Type 0
IsUndecided w s = (s.market.markets ≡ w.markets) × (s.market.jobs ≡ w.jobs)

module _ (w : MarketState) where
  broker-rows :
      (id : ℕ) (decision : Decision) (actor : Option ℕ) (v : MarketState)
      → let v' = (handle_entity_permission_decision id decision actor v).1 in
        (v'.markets ≡ v.markets) × (v'.jobs ≡ v.jobs)
  unfolding handle_entity_permission_decision find_market publish_market_event
  broker-rows id decision actor v = ground arith

  Keeps-broker :
      (id : ℕ) (decision : Decision) (actor : Option ℕ)
      → Keeps (IsUndecided w) (on_market (handle_entity_permission_decision id decision actor))
  Keeps-broker id decision actor = record {
    at = λ s (rows, jobs).
        let (rows', jobs') = broker-rows id decision actor s.market in (rows' ∙ rows, jobs' ∙ jobs);
  }

  Keeps-record : (new : ProcessedEvent) → Keeps (IsUndecided w) (record_processed_event new)
  unfolding record_processed_event
  Keeps-record new = record { at = λ s h. h }

  Keeps-polled :
      (event : PolledEvent) (decision : Decision)
      → Keeps (IsUndecided w) (process_polled event decision)
  unfolding process_polled
  Keeps-polled event decision = search (keeps_rules, Keeps-broker, Keeps-record)

record_goes :
    (id : ℕ) (t : ExternalEventType) (status : ProcessingStatus) (s : EventState)
    → (record_processed_event
        (record { event_id = id; event_type = t; processing_status = status })
        s).0
      ≡ ok tt
unfolding record_processed_event
record_goes id t status s = refl

polled-IsProcessed :
    (event : PolledEvent) (decision : Decision) (s : EventState)
    → IsProcessed event.event_id (process_polled event decision s).1
unfolding process_polled
polled-IsProcessed event decision s =
    split
      (on_market (handle_entity_permission_decision event.market_id decision event.actor_id) s).0
      refl
  where
    broker : Action EventState Done
    broker = on_market (handle_entity_permission_decision event.market_id decision event.actor_id)

    note : ProcessingStatus → Action EventState Done
    note status = record_processed_event (record {
      event_id = event.event_id;
      event_type = event.event_type;
      processing_status = status;
    })

    recorded : (status : ProcessingStatus) (s' : EventState) → (note status s').0 ≡ ok tt
    recorded status s' = record_goes event.event_id event.event_type status s'

    split :
        (r : Result Done)
        → (broker s).0 ≡ r
        → IsProcessed event.event_id (catch (broker >> note success) (λ _. note failed) s).1
    split (ok u) e =
        let s' = (broker s).1 in
        let run =
          catch-ok (broker >> note success) (λ _. note failed) s
            (bind-ok broker (λ _. note success) s {s' = s'} (λ i. (e i, s'))
              ∙ (λ i. (recorded success s' i, (note success s').1))) in
        subst (λ x. IsProcessed event.event_id x.1) (sym run)
          (record-IsProcessed event.event_id event.event_type success s')
    split (err x) e =
        let s' = (broker s).1 in
        let run =
          catch-err (broker >> note success) (λ _. note failed) s
            (bind-err broker (λ _. note success) s {s' = s'} (λ i. (e i, s'))) in
        subst (λ x. IsProcessed event.event_id x.1) (sym run)
          (record-IsProcessed event.event_id event.event_type failed s')

module _ (event : PolledEvent) (decision : Decision) (s : EventState)
    (decides : polled_decision event.event_type ≡ some decision) where
  polls-new :
      is_some (s.processed event.event_id) ≡ false
      → process_entity_permission_event event s ≡ process_polled event decision s
  unfolding process_entity_permission_event is_event_processed
  polls-new h = rw (h, decides) refl

  -- A polled decision on a market is not carried out, and the webhook that brings it is then too
  -- late: a decision event that was not processed before and is polled, with or without a failure,
  -- leaves every market and the deployment queue as they were, and each later delivery under its
  -- id is answered with already_processed and changes nothing.
  pub poll-blocks :
      (authorize : (admin entity : ℕ) → MarketAction → Option Bool) (body : WebhookBody)
      (t : ExternalEventType) (p : Payload) (a : Option ℕ)
      → is_some (s.processed event.event_id) ≡ false
      → Carries body (event_with event.event_id t p a)
      → let s' = (process_entity_permission_event event s).1 in
        IsUndecided s.market s'
        × (handle_entity_permissions_webhook authorize body s' ≡ (ok already_processed, s'))
  poll-blocks authorize body t p a new brings =
      let s' = (process_polled event decision s).1 in
      subst
        (λ x.
          IsUndecided s.market x.1
          × (handle_entity_permissions_webhook authorize body x.1 ≡ (ok already_processed, x.1)))
        (sym (polls-new new))
        (
          (Keeps-polled s.market event decision).at s (refl, refl),
          webhook-again authorize event.event_id body t p a s' brings
              (polled-IsProcessed event decision s),
        )
