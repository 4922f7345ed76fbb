-- ===== src/Trading/Matching/Outcome.antt =====
-- What executeMatching of marketBackend/src/infra/queue/matchingWorkerHandler.ts returns.
use omen_backend.Base.{
  ℕ, zero, suc, ◌+◌, ◌-◌, ◌≡◌, refl, Bool, Option, List, pos, ok, ◌∙◌, sym, arith, All, length, ltb,
  ltb_ℤ, if◌then◌else◌, ◌==◌, bind-ok, bind-eq-ok, subst, Action, pure, ◌>>◌, true, false, none,
  some, ap, ◌<◌, ==-self,
}
use omen_backend.Trading.Types.{
  Order, OrderSide, OrderStatus, TradingPair, filled, partial, open_status, opposite,
}
use omen_backend.Trading.Store.{
  State, BookCommand, publish, order_filled, order_partially_filled, changed_order,
  update_order_status,
}
use omen_backend.Trading.Store.Orders.{
  order_at, order_at-id, order_at-update, update_order_status-eq-ok,
}
use omen_backend.Trading.Worker.{
  remaining_of, remove_order_from_order_book, add_order_to_order_book,
}
use omen_backend.Trading.Matching.{
  Progress, MatchResult, match_loop, finish_matching, result, start, get_opposing_orders,
  execute_matching,
}
use omen_backend.Trading.Matching.Loop.{match_loop-Fills, Fills, Fills-sum, sum, IsOpen, Outcome}

-- The status that the remaining quantity gives.
abbrev pub status_for : ℕ → Order → OrderStatus
status_for r order =
    if r == 0 then filled else if ltb r order.quantity then partial else open_status

finish-status :
    (allowed : OrderStatus → Bool) (order : Order) (r : ℕ) (p : Progress) (s s' : State)
    (m : MatchResult)
    → p.remaining ≡ pos r
    → finish_matching allowed order p s ≡ (ok m, s')
    → m ≡ result p (status_for r order)
unfolding finish_matching publish remove_order_from_order_book add_order_to_order_book
finish-status allowed order zero p s s' m left h = ground arith
finish-status allowed order (suc r) p s s' m left h = ground arith

-- The row after the loop, where the order is FILLED or PARTIAL: the status is written and nothing
-- else. The row of an order that no trade went through for is left as it is.
abbrev pub stored_row : ℕ → Order → Option Order → Option Order
stored_row r order none = none
stored_row r order (some row) =
    if ltb r order.quantity then some (record row { status = status_for r order }) else some row

status-stored :
    (allowed : OrderStatus → Bool) (id : ℕ) (status : OrderStatus) (s s' : State) (new : Order)
    → update_order_status allowed id status none s ≡ (ok new, s')
    → (old : Order) × (order_at id s.orders ≡ some old)
      × (order_at id s'.orders ≡ some (record old { status = status }))
unfolding changed_order
status-stored allowed id status s s' new h =
    let (old, found, changed, after) =
      update_order_status-eq-ok allowed id status none s s' new h in
    let written : new ≡ record old { status = status } = ground (arith, changed) in
    let keyed : new.id ≡ id = ap (λ (x : Order). x.id) written ∙ order_at-id id s.orders found in
    (
      old,
      found,
      rw after
          (order_at-update id id new s.orders keyed ∙ rw (==-self id, found) (ap some written)),
    )

-- The same, where what follows the update writes no order.
then-stored :
    (allowed : OrderStatus → Bool) (id : ℕ) (status : OrderStatus) (k : Action State MatchResult)
    (s s' : State) (m : MatchResult)
    → ((x : State) → (k x).1.orders ≡ x.orders)
    → (update_order_status allowed id status none >> k) s ≡ (ok m, s')
    → (old : Order) × (order_at id s.orders ≡ some old)
      × (order_at id s'.orders ≡ some (record old { status = status }))
then-stored allowed id status k s s' m keeps h =
    let (new, s1, e, rest) = bind-eq-ok (update_order_status allowed id status none) (λ _. k) s h in
    let (old, found, row) = status-stored allowed id status s s1 new e in
    let same : s'.orders ≡ s1.orders = sym (ap (λ x. x.1.orders) rest) ∙ keeps s1 in
    (old, found, rw same row)

finish-stored :
    (allowed : OrderStatus → Bool) (order : Order) (r n : ℕ) (s s' : State) (m : MatchResult)
    → finish_matching allowed order (record { remaining = pos r; trades_executed = n }) s
      ≡ (ok m, s')
    → (b : Bool) → ltb_ℤ (pos r) (pos order.quantity) ≡ b
    → 0 < order.quantity
    → order_at order.id s'.orders ≡ stored_row r order (order_at order.id s.orders)
unfolding finish_matching publish remove_order_from_order_book add_order_to_order_book
finish-stored allowed order zero n s s' m h b less positive =
    let p : Progress = record { remaining = pos zero; trades_executed = n } in
    let (old, found, row) =
      then-stored allowed order.id filled
        (do
          publish (order_filled order.id)
          remove_order_from_order_book order
          pure (result p filled))
        s s' m (λ x. refl) h in
    row ∙ rw found (ground arith)
finish-stored allowed order (suc r) n s s' m h true less positive =
    let p : Progress = record { remaining = pos (suc r); trades_executed = n } in
    let rest : Action State MatchResult = (do
      publish (order_partially_filled order.id)
      add_order_to_order_book order
      pure (result p partial)) in
    let open_rest : Action State MatchResult = (do
      add_order_to_order_book order
      pure (result p open_status)) in
    let (old, found, row) =
      then-stored allowed order.id partial rest s s' m (λ x. refl)
        (subst
          (λ c.
            (if c then (update_order_status allowed order.id partial none >> rest) else open_rest) s
            ≡ (ok m, s'))
          less h) in
    row ∙ rw found (ground (arith, less))
finish-stored allowed order (suc r) n s s' m h false more positive =
    let same : s'.orders ≡ s.orders = ground arith in rw same (ground (arith, more))

-- A report of executeMatching: the trades are the run of the loop on the opposing orders, the
-- report counts them, and the state is what follows the loop.
pub record IsMatched (allowed : OrderStatus → Bool) (order : Order) (pair : TradingPair)
    (opposing : List Order) (s : State) (m : MatchResult) (s' : State) : Type 0 where
  pub trades : List ℕ
  pub remaining : ℕ
  pub end : State
  pub run :
      Fills allowed order pair opposing
        (order.quantity - order.filled_quantity)
        s
        trades
        remaining
        end
  pub finished :
      finish_matching allowed order
        (record { remaining = pos remaining; trades_executed = length trades })
        end
      ≡ (ok m, s')
  pub stored :
      order_at order.id s'.orders ≡ stored_row remaining order (order_at order.id end.orders)
  pub conserved : order.filled_quantity + sum trades + remaining ≡ order.quantity
  pub counted : m.trades_executed ≡ length trades
  pub matched : m.matched ≡ ltb 0 (length trades)
  pub left : m.remaining_quantity ≡ pos remaining
  pub status : m.final_status ≡ status_for remaining order

remaining-pos :
    (order : Order)
    → IsOpen order
    → remaining_of order ≡ pos (order.quantity - order.filled_quantity)
remaining-pos order h = ground arith

IsMatched-from :
    (allowed : OrderStatus → Bool) (order : Order) (pair : TradingPair) (opposing : List Order)
    (s s' : State) (m : MatchResult) (x : Progress × State)
    → IsOpen order
    → 0 < order.quantity
    → Outcome allowed order pair opposing (order.quantity - order.filled_quantity) 0 s x
    → finish_matching allowed order x.0 x.1 ≡ (ok m, s')
    → IsMatched allowed order pair opposing s m s'
IsMatched-from allowed order pair opposing s s' m (p, mid) open_o positive (r, qs, left, count, run)
      h =
    let e = finish-status allowed order r p mid s' m left h in
    let ended : Progress = record { remaining = pos r; trades_executed = length qs } in
    let counted_by : p.trades_executed ≡ length qs = omega (arith, count) in
    let same : p ≡ ended = λ i. record { remaining = left i; trades_executed = counted_by i } in
    let h' : finish_matching allowed order ended mid ≡ (ok m, s') =
      subst (λ z. finish_matching allowed order z mid ≡ (ok m, s')) same h in
    record {
      trades = qs;
      remaining = r;
      end = mid;
      run = run;
      finished = h';
      stored = finish-stored allowed order r (length qs) mid s' m h' _ refl positive;
      conserved = omega (arith, Fills-sum allowed order pair run, open_o);
      counted = rw e (count ∙ omega arith);
      matched = rw e (rw count (ground arith));
      left = rw e left;
      status = rw e refl;
    }

-- An order of a positive quantity that is not filled beyond it is matched against opposing orders
-- of which none is: if executeMatching returns, then its report is that of the run of the loop on
-- those orders, one after the other, and the final state is what the last step of the method makes
-- of the end of the loop. The fills and the remaining quantity make up the order, the status is
-- FILLED, PARTIAL or OPEN as the remaining quantity says, and FILLED or PARTIAL is written to the
-- row of the order, of which nothing else changes in that step.
pub execute_matching-IsMatched :
    (allowed : OrderStatus → Bool)
    (redis_range : List BookCommand → ℕ → OrderSide → Option (List Order)) (order : Order)
    (pair : TradingPair) (opposing : List Order) (s s1 s' : State) (m : MatchResult)
    → IsOpen order
    → 0 < order.quantity
    → All IsOpen opposing
    → get_opposing_orders allowed redis_range pair.id (opposite order.side) s ≡ (ok opposing, s1)
    → execute_matching allowed redis_range order pair s ≡ (ok m, s')
    → IsMatched allowed order pair opposing s1 m s'
unfolding execute_matching
execute_matching-IsMatched allowed redis_range order pair opposing s s1 s' m open_o positive open_os
      found h =
    let continue : List Order → Action State MatchResult = λ os s.
      (let (p, s') = match_loop allowed order pair os (start order) s in
        finish_matching allowed order p s') in
    let k =
      sym (
        bind-ok (get_opposing_orders allowed redis_range pair.id (opposite order.side)) continue s
          found)
      ∙ h in
    let run : Outcome allowed order pair opposing (order.quantity - order.filled_quantity) 0 s1
        (match_loop allowed order pair opposing (start order) s1) =
      subst
        (λ z. Outcome allowed order pair opposing (order.quantity - order.filled_quantity) 0 s1 (
          match_loop allowed order pair opposing (record { remaining = z; trades_executed = 0 })
            s1))
        (sym (remaining-pos order open_o))
        (match_loop-Fills allowed order pair opposing (order.quantity - order.filled_quantity) 0 s1
          open_os) in
    IsMatched-from allowed order pair opposing s1 s' m _ open_o positive run k
