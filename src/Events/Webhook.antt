-- ===== src/Events/Webhook.antt =====
-- `handleEntityPermissionsWebhook` of marketBackend/src/controllers/webhookController.ts. What
-- JSON.parse makes of the message is part of the input: an event, or it throws (`none`).
use omen_backend.Base.{
  ℕ, Bool, true, false, Option, none, some, if◌then◌else◌, is_some, ◌&&◌, Action, Done, Code, Error,
  app, pure, throw, or_throw, catch, ◌>>=◌, ◌>>◌, invalid_sns_message, invalid_webhook_payload,
  missing_event_fields, invalid_approval_payload, invalid_decision,
}
use omen_backend.Market.Service.{MarketAction, Decision, approve, reject, process_approval_decision}
use omen_backend.Events.Store.{
  success, failed, skipped, ExternalEventType, other_type, EventState, on_market,
  is_event_processed, record_processed_event, handle_entity_permission_decision,
}

pub data DecisionText : Type 0 where
  approved_text rejected_text other_text : DecisionText

pub record Payload : Type 0 where
  pub market_id : Option ℕ
  pub entity_id : ℕ
  pub decision : Option DecisionText
  pub reason : Option ℕ

-- `actor_id` is `context?.actor_id`.
pub record ExternalEvent : Type 0 where
  pub event_id : Option ℕ
  pub event_type : Option ExternalEventType
  pub payload : Option Payload
  pub actor_id : Option ℕ

-- `notification` is there for a body of the type 'Notification' with a message, and is then what
-- the parser makes of the message; `direct` is the body read as an event.
pub record WebhookBody : Type 0 where
  pub notification : Option (Option ExternalEvent)
  pub direct : ExternalEvent

-- What the handler sends, with its status; it never throws.
pub data Response : Type 0 where
  received already_processed : Response
  refused : ℕ → Option Code → Response

-- The event of a body: parsed, or the body itself.
unfoldable pub read_event : WebhookBody → Action EventState ExternalEvent
read_event body = elim body.notification [
  | some parsed ↦ or_throw parsed (app 400 invalid_sns_message)
  | none ↦
      if is_some body.direct.event_id && is_some body.direct.event_type
      then pure body.direct
      else throw (app 400 invalid_webhook_payload)
]

abbrev pub decision_of : DecisionText → Option Decision
decision_of approved_text = some approve
decision_of rejected_text = some reject
decision_of other_text = none

abbrev pub is_decision_event : ExternalEventType → Bool
is_decision_event other_type = false
is_decision_event _ = true

-- The answer to an error that was caught.
abbrev pub answer_of : Error → Response
answer_of (app status code) = refused status (some code)
answer_of _ = refused 500 none

module _ (authorize : (admin entity : ℕ) → MarketAction → Option Bool) where
  -- The broker has thrown where the actor is missing.
  unfoldable pub handle_market_approval_decision : Payload → Option ℕ → Action EventState Done
  handle_market_approval_decision payload actor = do
    market_id ← or_throw payload.market_id (app 400 invalid_approval_payload)
    text ← or_throw payload.decision (app 400 invalid_approval_payload)
    decision ← or_throw (decision_of text) (app 400 invalid_decision)
    on_market (handle_entity_permission_decision market_id decision actor)
    elim actor [
      | none ↦ pure tt
      | some admin ↦
          on_market (
            process_approval_decision authorize market_id decision payload.reason payload.entity_id
              admin)
          >> pure tt
    ]

  unfoldable pub route_event : ℕ → ExternalEventType → Payload → Option ℕ → Action EventState Done
  route_event id event_type payload actor =
      if is_decision_event event_type
      then (handle_market_approval_decision payload actor
          >> record_processed_event
              (record { event_id = id; event_type = event_type; processing_status = success }))
      else record_processed_event
          (record { event_id = id; event_type = event_type; processing_status = skipped })

  -- What processes an event for the first time, and records a failure.
  unfoldable pub process_event : ℕ → ExternalEventType → Payload → Option ℕ → Action EventState Done
  process_event id event_type payload actor = catch (route_event id event_type payload actor) λ e.
      record_processed_event
        (record { event_id = id; event_type = event_type; processing_status = failed })
      >> throw e

  -- An event with its required fields.
  unfoldable pub receive_event :
      ℕ → ExternalEventType → Payload → Option ℕ → Action EventState Response
  receive_event id event_type payload actor = do
    already ← is_event_processed id
    (if already
        then pure already_processed
        else (process_event id event_type payload actor >> pure received))

  unfoldable pub respond : WebhookBody → Action EventState Response
  respond body = do
    event ← read_event body
    id ← or_throw event.event_id (app 400 missing_event_fields)
    event_type ← or_throw event.event_type (app 400 missing_event_fields)
    payload ← or_throw event.payload (app 400 missing_event_fields)
    receive_event id event_type payload event.actor_id

  unfoldable pub handle_entity_permissions_webhook : WebhookBody → Action EventState Response
  handle_entity_permissions_webhook body = catch (respond body) λ e. pure (answer_of e)
