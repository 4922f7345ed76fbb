-- ===== src/Market/Service/Calls.antt =====
-- Which calls of marketBackend/src/services/marketService.ts leave the markets governed, for those
-- that no status of a market guards.
use omen_backend.Base.{
  ℕ, ◌≡◌, refl, Bool, true, false, not, ◌||◌, Option, none, some, ◌==◌, if◌then◌else◌, insert,
  is_some, arith,
}
use omen_backend.Base.Keeps.{Keeps, keeps_rules}
use omen_backend.Market.Types.{
  MarketStatus, pending_approval, approved, activating, active, Market, MarketEventType,
}
use omen_backend.Market.Store.{
  DeploymentJob, MarketState, CreateMarketInput, create_market, change_market, update_market_status,
  approve_market, reject_market, find_market, create_market_asset, publish_market_event,
  add_deployment,
}
use omen_backend.Market.Service.{get_market, request_approval}

abbrev pub needs_approval : MarketStatus → Bool
needs_approval approved = true
needs_approval activating = true
needs_approval active = true
needs_approval _ = false

-- A market that is approved, on its way or live has someone who approved it.
abbrev pub IsGoverned : Market → Type 0
IsGoverned m = (not (needs_approval m.status) || is_some m.approved_by) ≡ true

abbrev pub IsGovernedRow : Option Market → Type 0
IsGovernedRow none = Unit
IsGovernedRow (some m) = IsGoverned m

abbrev pub AreGoverned : MarketState → Type 0
AreGoverned s = (id : ℕ) → IsGovernedRow (s.markets id)

pub row-IsGoverned :
    (s : MarketState) (id : ℕ) {m : Market} → AreGoverned s → s.markets id ≡ some m → IsGoverned m
row-IsGoverned s id g e = let h = g id in rw e at h

-- A governed row among governed rows.
pub insert-governed :
    (s : MarketState) (id : ℕ) (m : Market)
    → AreGoverned s
    → IsGoverned m
    → (j : ℕ) → IsGovernedRow (insert id m s.markets j)
insert-governed s id m g h j = by_id (j == id)
  where
    by_id : (b : Bool) → IsGovernedRow (if b then some m else s.markets j)
    by_id true = h
    by_id false = g j

-- The calls after which the markets are governed, if they were before.
pub Keeps-event :
    (id : ℕ) (t : MarketEventType) (actor : ℕ) → Keeps AreGoverned (publish_market_event id t actor)
unfolding publish_market_event
Keeps-event id t actor = record { at = λ s g. g }

pub Keeps-job : (job : DeploymentJob) → Keeps AreGoverned (add_deployment job)
unfolding add_deployment
Keeps-job job = record { at = λ s g. g }

pub Keeps-asset : (id : ℕ) → Keeps AreGoverned (create_market_asset id)
unfolding create_market_asset
Keeps-asset id = record { at = λ s g. g }

pub Keeps-create : (input : CreateMarketInput) → Keeps AreGoverned (create_market input)
unfolding create_market
Keeps-create input = record { at = λ s g. insert-governed s s.next_id _ g refl }

change-governed :
    (id : ℕ) (f : Market → Market) (s : MarketState)
    → ((m : Market) → IsGoverned m → IsGoverned (f m))
    → AreGoverned s
    → AreGoverned (change_market id f s).1
unfolding change_market
change-governed id f s k g = by_row (s.markets id) refl
  where
    by_row : (row : Option Market) → s.markets id ≡ row → AreGoverned (change_market id f s).1
    by_row none e = rw (e, change_market) g
    by_row (some m) e =
        rw (e, change_market) (insert-governed s id (f m) g (k m (row-IsGoverned s id g e)))

pub Keeps-status :
    (id : ℕ) (status : MarketStatus)
    → needs_approval status ≡ false
    → Keeps AreGoverned (update_market_status id status)
unfolding update_market_status
Keeps-status id status h = record { at = λ s g. change-governed id _ s (λ m k. ground arith) g }

pub Keeps-approve : (id approver : ℕ) → Keeps AreGoverned (approve_market id approver)
unfolding approve_market
Keeps-approve id approver = record { at = λ s g. change-governed id _ s (λ m k. refl) g }

pub Keeps-reject : (id : ℕ) (reason : Option ℕ) → Keeps AreGoverned (reject_market id reason)
unfolding reject_market
Keeps-reject id reason = record { at = λ s g. change-governed id _ s (λ m k. refl) g }

pub Keeps-get : (id : ℕ) → Keeps AreGoverned (get_market id)
unfolding get_market find_market
Keeps-get id = search keeps_rules

Keeps-pending : (id : ℕ) → Keeps AreGoverned (update_market_status id pending_approval)
Keeps-pending id = Keeps-status id pending_approval refl

pub Keeps-request : (id admin : ℕ) → Keeps AreGoverned (request_approval id admin)
unfolding request_approval
Keeps-request id admin = search (keeps_rules, Keeps-get, Keeps-pending, Keeps-event)
