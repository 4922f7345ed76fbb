-- ===== src/Trading/Store/Trades.antt =====
-- The row that INSERT INTO trades writes: createTrade of
-- marketBackend/src/infra/database/repositories/tradingRepository.ts.
use omen_backend.Base.{suc, ◌<◌, ◌≡◌, refl, [], ◌∷◌, ◌++◌, ℤ, pos, ok, arith}
use omen_backend.Trading.Types.{Trade, pending}
use omen_backend.Trading.Store.{State, CreateTradeInput, create_trade}

-- The row of a trade carries what was asked for; only the trades and the fresh id change.
pub record Creates (i : CreateTradeInput) (s : State) (t : Trade) (s' : State) : Type 0 where
  pub price : i.price ≡ pos t.price
  pub price_pos : 0 < t.price
  pub quantity : i.quantity ≡ pos t.quantity
  pub quantity_pos : 0 < t.quantity
  pub buyer : t.buyer_id ≡ i.buyer_id
  pub seller : t.seller_id ≡ i.seller_id
  pub fee : t.buyer_fee ≡ i.buyer_fee
  pub status : t.settlement_status ≡ pending
  pub trades : s'.trades ≡ s.trades ++ t ∷ []
  pub ledger : s'.ledger ≡ s.ledger
  pub orders : s'.orders ≡ s.orders

Creates-at :
    (p q : ℤ) (i : CreateTradeInput) (s s' : State) (t : Trade)
    → i.price ≡ p
    → i.quantity ≡ q
    → create_trade i s ≡ (ok t, s')
    → Creates i s t s'
unfolding create_trade
Creates-at (pos (suc p)) (pos (suc q)) i s s' t ep eq h = ground arith
Creates-at _ _ i s s' t ep eq h = absurd (ground arith)

pub create_trade-Creates :
    (i : CreateTradeInput) (s s' : State) (t : Trade)
    → create_trade i s ≡ (ok t, s')
    → Creates i s t s'
create_trade-Creates i s s' t h = Creates-at i.price i.quantity i s s' t refl refl h
