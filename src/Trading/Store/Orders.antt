-- ===== src/Trading/Store/Orders.antt =====
-- The rows that UPDATE orders writes: updateOrderStatus of
-- marketBackend/src/infra/database/repositories/tradingRepository.ts.
use omen_backend.Base.{
  ℕ, ◌≡◌, ◌≢◌, ◌≤◌, refl, Bool, Option, none, some, List, [], ◌∷◌, ℤ, pos, ok, ◌∙◌, ◌==◌, find,
  if◌then◌else◌, update_where, arith,
}
use omen_backend.Trading.Types.{Order, OrderStatus}
use omen_backend.Trading.Store.{State, changed_order, update_order_status}

abbrev pub order_at : ℕ → List Order → Option Order
order_at id = find (λ (o : Order). o.id == id)

pub order_at-id : (id : ℕ) (os : List Order) {o : Order} → order_at id os ≡ some o → o.id ≡ id
order_at-id id [] h = cc
order_at-id id (x ∷ os) {o} h = ground (arith, order_at-id id os {o = o})

pub order_at-update :
    (id j : ℕ) (new : Order) (os : List Order)
    → new.id ≡ id
    → order_at j (update_where (λ (x : Order). x.id == id) (λ _. new) os) ≡ (
        if j == id
        then (elim (order_at id os) [ none ↦ none | some _ ↦ some new ])
        else order_at j os)
order_at-update id j new [] h = ground arith
order_at-update id j new (x ∷ os) h = ground (arith, order_at-update id j new os h)

module _ (allowed : OrderStatus → Bool) where
  pub changed_order-fields :
      (status : OrderStatus) (filled : Option ℤ) (o new : Order)
      → changed_order allowed status filled o ≡ ok new
      → (new.id ≡ o.id)
        × (new.status ≡ status)
        × (new.quantity ≡ o.quantity)
        × (new.price ≡ o.price)
  unfolding changed_order
  changed_order-fields status none o new h = ground arith
  changed_order-fields status (some (pos f)) o new h = ground arith
  changed_order-fields status (some _) o new h = ground arith

  pub update_order_status-eq-ok :
      (id : ℕ) (status : OrderStatus) (filled : Option ℤ) (s s' : State) (new : Order)
      → update_order_status allowed id status filled s ≡ (ok new, s')
      → (old : Order) × (order_at id s.orders ≡ some old)
        × (changed_order allowed status filled old ≡ ok new)
        × (s' ≡ record s { orders = update_where (λ (x : Order). x.id == id) (λ _. new) s.orders })
  unfolding update_order_status
  update_order_status-eq-ok id status filled s s' new h = find_case (order_at id s.orders) refl
    where
      find_case :
          (row : Option Order)
          → order_at id s.orders ≡ row
          → (old : Order) × (order_at id s.orders ≡ some old)
            × (changed_order allowed status filled old ≡ ok new)
            × (s' ≡ record s {
              orders = update_where (λ (x : Order). x.id == id) (λ _. new) s.orders;
            })
      find_case none e = absurd (cc (rw (e, update_order_status) at h))
      find_case (some old) e = (old, e, ground arith, ground arith)

  pub changed_order-filled :
      (status : OrderStatus) (f : ℕ) (o new : Order)
      → changed_order allowed status (some (pos f)) o ≡ ok new
      → (new.filled_quantity ≡ f) × (f ≤ o.quantity)
  unfolding changed_order
  changed_order-filled status f o new h = (ground arith, ground arith)

  -- An update that gives the filled quantity writes it, whatever the row said.
  pub update_order_status-filled :
      (id : ℕ) (status : OrderStatus) (f : ℕ) (s s' : State) (new : Order)
      → update_order_status allowed id status (some (pos f)) s ≡ (ok new, s')
      → new.filled_quantity ≡ f
  update_order_status-filled id status f s s' new h =
      let (old, found, changed, after) =
        update_order_status-eq-ok id status (some (pos f)) s s' new h in
      (changed_order-filled status f old new changed).0

  -- An update that returned wrote the row under its id, and left every other row alone.
  pub update_order_status-rows :
      (id : ℕ) (status : OrderStatus) (filled : Option ℤ) (s s' : State) (new : Order)
      → update_order_status allowed id status filled s ≡ (ok new, s')
      → (new.status ≡ status)
        × (order_at id s'.orders ≡ some new)
        × ((j : ℕ) → j ≢ id → order_at j s'.orders ≡ order_at j s.orders)
        × (s'.ledger ≡ s.ledger)
        × (s'.trades ≡ s.trades)
  update_order_status-rows id status filled s s' new h =
      let (old, found, changed, after) = update_order_status-eq-ok id status filled s s' new h in
      let f = changed_order-fields status filled old new changed in
      let same : new.id ≡ id = f.0 ∙ order_at-id id s.orders found in
      (
        f.1,
        rw after (rw (order_at-update id id new s.orders same) (ground arith)),
        λ j ne. rw after (rw (order_at-update id j new s.orders same) (ground arith)),
        rw after,
        rw after,
      )
