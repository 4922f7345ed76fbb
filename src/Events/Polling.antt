-- ===== src/Events/Polling.antt =====
-- `MarketEventListener` of marketBackend/src/services/eventListenerService.ts: one polled batch.
-- The reply of the entity permissions service is the input, where the poll got one.
use omen_backend.Base.{
  ℕ, Option, none, some, List, [], ◌∷◌, if◌then◌else◌, Action, Done, pure, catch, ◌>>=◌, ◌>>◌,
}
use omen_backend.Market.Service.{Decision, approve, reject}
use omen_backend.Events.Store.{
  ExternalEventType, market_approved, market_rejected, other_type, success, failed, EventState,
  on_market, is_event_processed, record_processed_event, handle_entity_permission_decision,
}

-- A polled event; a market that the payload does not name is one that no row has.
pub record PolledEvent : Type 0 where
  pub event_id : ℕ
  pub event_type : ExternalEventType
  pub market_id : ℕ
  pub actor_id : Option ℕ

abbrev pub polled_decision : ExternalEventType → Option Decision
polled_decision market_approved = some approve
polled_decision market_rejected = some reject
polled_decision other_type = none

unfoldable pub process_polled : PolledEvent → Decision → Action EventState Done
process_polled event decision =
    catch
      (on_market (handle_entity_permission_decision event.market_id decision event.actor_id)
        >> record_processed_event (record {
          event_id = event.event_id;
          event_type = event.event_type;
          processing_status = success;
        }))
      λ _. record_processed_event (record {
        event_id = event.event_id;
        event_type = event.event_type;
        processing_status = failed;
      })

unfoldable pub process_entity_permission_event : PolledEvent → Action EventState Done
process_entity_permission_event event = do
  already ← is_event_processed event.event_id
  (if already then pure tt else elim (polled_decision event.event_type) [
    | none ↦ pure tt
    | some decision ↦ process_polled event decision
  ])

unfoldable pub poll_entity_permissions_events : List PolledEvent → Action EventState Done
poll_entity_permissions_events [] = pure tt
poll_entity_permissions_events (e ∷ es) =
    process_entity_permission_event e >> poll_entity_permissions_events es
