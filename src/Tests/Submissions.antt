-- ===== src/Tests/Submissions.antt =====
-- Orders that a user submits and cancels.
use omen_backend.Base.{◌≡◌, refl, false, some, [], ◌∷◌, pos, err, status_check}
use omen_backend.Token.Store.{lock_balance, unlock_balance, write_balance, update_balance}
use omen_backend.Token.Service.{
  update_balance_internal, publish_balance, cache_balance, lock_balance_for_order,
  unlock_balance_from_order,
}
use omen_backend.Trading.Types.{Order, buy, limit, gtc, pending_match, cancelled}
use omen_backend.Trading.Store.{
  State, find_trading_pair_by_id, find_order_by_id, changed_order, update_order_status,
  migrated_status_check, insert_audit_log, publish, send, invalidate_order_book_cache,
}
use omen_backend.Trading.Amounts.{wei, calculate_quote_amount}
use omen_backend.Trading.Service.{
  place_order, submit_order, take_off_book, announce_cancel, release_order, cancel_order,
}
use omen_backend.Trading.Service.Submit.{submit_order-throws, place_order-strands}
use omen_backend.Trading.Service.Cancel.{IsCancelled, cancel_order-IsCancelled}
use omen_backend.Trading.Service.Book.{
  quantity_at, count_at, unfilled_at, orders_at, IsDistinct, aggregate_order_book-levels,
}
use omen_backend.Trading.Service.{aggregate_order_book}
use omen_backend.Base.{returned}
use omen_backend.Tests.Data.{
  ledger_with, maker1, maker2, taker, pair5, state_with, any_status, wanted, any_signature,
}

abbrev submitted : Order
submitted = record {
  id = 50;
  user_id = 2;
  trading_pair_id = 5;
  side = buy;
  order_type = limit;
  status = pending_match;
  price = some (pos wei);
  quantity = 300;
  filled_quantity = 0;
  time_in_force = gtc;
}

abbrev after_wanted : State
after_wanted = (submit_order any_status any_signature wanted (state_with 0)).1

-- Another order of the user in between, and the state of an hour later.
abbrev between : State
between = (submit_order any_status any_signature (record wanted { nonce = 78 }) after_wanted).1

abbrev hour_later : State
hour_later = record after_wanted { ledger = record after_wanted.ledger { now = 9_000_000 } }

submit_order-throws_example :
    returned (submit_order migrated_status_check any_signature wanted (state_with 0)).0 ≡ false
submit_order-throws_example = submit_order-throws any_signature wanted (state_with 0)

place_order-strands_example : place_order migrated_status_check wanted pair5 (state_with 0) ≡ (
  err status_check,
  record (state_with 0) { ledger = (lock_balance_for_order 2 20 (pos 300) (ledger_with 0)).1 },
)
unfolding lock_balance lock_balance_for_order update_balance_internal update_balance write_balance
    publish_balance cache_balance calculate_quote_amount
place_order-strands_example =
    place_order-strands wanted pair5 (state_with 0) (pos 300)
      (record { user_id = 2; token_id = 20; available_balance = 500; locked_balance = 300 }) _ refl
      refl

cancel_order-IsCancelled_example :
    IsCancelled 3 2
      (state_with 1500)
      (cancel_order any_status 3 2 (state_with 1500)).1
      (record taker { status = cancelled })
unfolding cancel_order release_order announce_cancel take_off_book find_order_by_id
    find_trading_pair_by_id changed_order update_order_status insert_audit_log publish send
    invalidate_order_book_cache unlock_balance unlock_balance_from_order update_balance_internal
    update_balance write_balance publish_balance cache_balance calculate_quote_amount
cancel_order-IsCancelled_example =
    cancel_order-IsCancelled any_status 3 2 (state_with 1500) _
      (record taker { status = cancelled }) refl

aggregate_order_book-levels_example :
    IsDistinct (aggregate_order_book (maker1 ∷ maker2 ∷ []))
    × (quantity_at (pos 2) (aggregate_order_book (maker1 ∷ maker2 ∷ []))
        ≡ unfilled_at (pos 2) (maker1 ∷ maker2 ∷ []))
    × (count_at (pos 2) (aggregate_order_book (maker1 ∷ maker2 ∷ []))
        ≡ orders_at (pos 2) (maker1 ∷ maker2 ∷ []))
aggregate_order_book-levels_example = aggregate_order_book-levels (maker1 ∷ maker2 ∷ []) (pos 2)
