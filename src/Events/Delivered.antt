-- ===== src/Events/Delivered.antt =====
-- Events that are delivered more than once: handleEntityPermissionsWebhook of
-- marketBackend/src/controllers/webhookController.ts.
use omen_backend.Base.{
  then_pure-state, catch-pure-state, ℕ, ◌≡◌, ◌∙◌, ◌⊎◌, inl, inr, refl, sym, ap, subst, Bool, true,
  Option, none, some, is_some, Action, Done, Result, ok, err, Error, pure, throw, catch, catch-ok,
  catch-err, bind-eq-ok, Bool-cases, ◌>>◌, arith,
}
use omen_backend.Market.Service.{MarketAction}
use omen_backend.Events.Store.{
  ProcessingStatus, success, failed, skipped, ExternalEventType, EventState, is_event_processed,
  record_processed_event,
}
use omen_backend.Events.Webhook.{
  Payload, ExternalEvent, WebhookBody, answer_of, received, already_processed, read_event,
  is_decision_event, handle_market_approval_decision, route_event, process_event, receive_event,
  respond, handle_entity_permissions_webhook,
}

abbrev pub event_with : ℕ → ExternalEventType → Payload → Option ℕ → ExternalEvent
event_with id event_type payload actor = record {
  event_id = some id;
  event_type = some event_type;
  payload = some payload;
  actor_id = actor;
}

-- The body brings an event, in the format of SNS or as it is.
abbrev pub Carries : WebhookBody → ExternalEvent → Type 0
Carries body event =
    (body.notification ≡ some (some event)) ⊎ ((body.notification ≡ none) × (body.direct ≡ event))

-- A row is recorded under the id.
abbrev pub IsProcessed : ℕ → EventState → Type 0
IsProcessed id s = is_some (s.processed id) ≡ true

pub record-IsProcessed :
    (id : ℕ) (t : ExternalEventType) (status : ProcessingStatus) (s : EventState)
    → IsProcessed id
        (record_processed_event
          (record { event_id = id; event_type = t; processing_status = status })
          s).1
unfolding record_processed_event
record-IsProcessed id t status s = ground arith

module _ (authorize : (admin entity : ℕ) → MarketAction → Option Bool) (id : ℕ)
    (event_type : ExternalEventType) (payload : Payload) (actor : Option ℕ) where
  route-IsProcessed :
      (s s' : EventState)
      → route_event authorize id event_type payload actor s ≡ (ok tt, s')
      → IsProcessed id s'
  unfolding route_event
  route-IsProcessed s s' h = elim (Bool-cases (is_decision_event event_type)) [
    | inl e ↦
        let handle : Action EventState Done =
          handle_market_approval_decision authorize payload actor in
        let note : Action EventState Done =
          record_processed_event
            (record { event_id = id; event_type = event_type; processing_status = success }) in
        let (_, mid, _, noted) = bind-eq-ok handle (λ _. note) s (rw e at h) in
        subst (λ x. IsProcessed id x.1) noted (record-IsProcessed id event_type success mid)
    | inr e ↦
        subst (λ x. IsProcessed id x.1) (rw e at h) (record-IsProcessed id event_type skipped s)
  ]

  process-IsProcessed :
      (s : EventState) → IsProcessed id (process_event authorize id event_type payload actor s).1
  unfolding process_event record_processed_event
  process-IsProcessed s = split (route_event authorize id event_type payload actor s).0 refl
    where
      handler : Error → Action EventState Done
      handler e =
          record_processed_event
            (record { event_id = id; event_type = event_type; processing_status = failed })
          >> throw e

      split :
          (r : Result Done)
          → (route_event authorize id event_type payload actor s).0 ≡ r
          → IsProcessed id (catch (route_event authorize id event_type payload actor) handler s).1
      split (ok u) e =
          let s' = (route_event authorize id event_type payload actor s).1 in
          subst (λ x. IsProcessed id x.1)
            (sym (
              catch-ok (route_event authorize id event_type payload actor) handler s {s' = s'}
                (λ i. (e i, s'))))
            (route-IsProcessed s s' (λ i. (e i, s')))
      split (err x) e =
          let s' = (route_event authorize id event_type payload actor s).1 in
          subst (λ x. IsProcessed id x.1)
            (sym (
              catch-err (route_event authorize id event_type payload actor) handler s {s' = s'}
                (λ i. (e i, s'))))
            (record-IsProcessed id event_type failed s')

  receive-IsProcessed :
      (s : EventState) → IsProcessed id (receive_event authorize id event_type payload actor s).1
  unfolding receive_event is_event_processed
  receive-IsProcessed s = elim (Bool-cases (is_some (s.processed id))) [
    | inl e ↦ rw e e
    | inr e ↦
        let process : Action EventState Done =
          process_event authorize id event_type payload actor in
        rw e (
          subst (λ x. IsProcessed id x) (sym (then_pure-state process received s))
            (process-IsProcessed s))
  ]

  pub receive-again :
      (s : EventState)
      → IsProcessed id s
      → receive_event authorize id event_type payload actor s ≡ (ok already_processed, s)
  unfolding receive_event is_event_processed
  receive-again s h = rw h refl

  pub respond-reaches :
      (body : WebhookBody) (s : EventState)
      → Carries body (event_with id event_type payload actor)
      → respond authorize body s ≡ receive_event authorize id event_type payload actor s
  unfolding respond read_event
  respond-reaches body s (inl e) = rw e refl
  respond-reaches body s (inr (e, f)) = rw (e, f) refl

module _ (authorize : (admin entity : ℕ) → MarketAction → Option Bool) where
  webhook-state :
      (body : WebhookBody) (s : EventState)
      → (handle_entity_permissions_webhook authorize body s).1 ≡ (respond authorize body s).1
  unfolding handle_entity_permissions_webhook
  webhook-state body s = catch-pure-state (respond authorize body) answer_of s

  pub webhook-again :
      (id : ℕ) (body : WebhookBody) (t : ExternalEventType) (p : Payload) (a : Option ℕ)
      (s : EventState)
      → Carries body (event_with id t p a)
      → IsProcessed id s
      → handle_entity_permissions_webhook authorize body s ≡ (ok already_processed, s)
  unfolding handle_entity_permissions_webhook
  webhook-again id body t p a s brings h =
      catch-ok (respond authorize body) (λ e. pure (answer_of e)) s
        (respond-reaches authorize id t p a body s brings ∙ receive-again authorize id t p a s h)

  -- A webhook that brings an event with its required fields is handled once: whatever the first
  -- delivery came to, with a failure of the decision among it, a later delivery under the same
  -- event id is answered with already_processed and changes nothing.
  pub webhook-once :
      (id : ℕ) (first second : WebhookBody) (t t' : ExternalEventType) (p p' : Payload)
      (a a' : Option ℕ) (s : EventState)
      → Carries first (event_with id t p a)
      → Carries second (event_with id t' p' a')
      → let s' = (handle_entity_permissions_webhook authorize first s).1 in
        handle_entity_permissions_webhook authorize second s' ≡ (ok already_processed, s')
  webhook-once id first second t t' p p' a a' s one two =
      webhook-again id second t' p' a' (handle_entity_permissions_webhook authorize first s).1 two (
        subst (λ x. IsProcessed id x)
          (sym (
            webhook-state first s ∙ ap (λ r. r.1) (respond-reaches authorize id t p a first s one)))
          (receive-IsProcessed authorize id t p a s))
