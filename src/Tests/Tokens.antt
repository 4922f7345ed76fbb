-- ===== src/Tests/Tokens.antt =====
-- The token service on the concrete ledger.
use omen_backend.Base.{◌+◌, ◌≡◌, ◌↔◌, refl, true, pos, negsuc, ok, returned, is_some, ◌≤◌, arith}
use omen_backend.Token.Store.{transfer, write_balance, update_balance}
use omen_backend.Token.Service.{
  process_transfer, get_user_balance, update_balance_internal, publish_balance, cache_balance,
  lock_balance_for_order,
}
use omen_backend.Token.Balances.{
  available, locked, Moves, lock_balance_for_order-Moves, lock_negative_unlocks,
}
use omen_backend.Token.Compliance.{Grants, Queues, compliance_of, process_transfer_iff}
use omen_backend.Token.Coherence.{IsValid, Reach-IsValid, get_user_balance-Reach}
use omen_backend.Tests.Data.{no_balances-IsValid, ledger_with, ledger_with-Reach, security}

get_user_balance-Reach_example :
    (get_user_balance 2 20 (ledger_with 1500)).0 ≡ ok ((ledger_with 1500).balances 2 20)
get_user_balance-Reach_example =
    get_user_balance-Reach 2 20 no_balances-IsValid (ledger_with-Reach 1500)

Reach-IsValid_example : IsValid (ledger_with 1500)
Reach-IsValid_example = Reach-IsValid no_balances-IsValid (ledger_with-Reach 1500)

lock_balance_for_order-Moves_example :
    Moves
      (ledger_with 1500)
      2
      20
      (pos 100)
      (lock_balance_for_order 2 20 (pos 100) (ledger_with 1500))
lock_balance_for_order-Moves_example =
    lock_balance_for_order-Moves 2 20 (pos 100) (ledger_with 1500)

lock_negative_unlocks_example :
    let (r, w') = lock_balance_for_order 2 20 (negsuc 99) (ledger_with 1500) in
    (returned r ≡ true)
    × (available (w'.balances 2 20) ≡ 900)
    × (locked (w'.balances 2 20) + 100 ≡ 1500)
unfolding update_balance_internal update_balance write_balance publish_balance cache_balance
lock_negative_unlocks_example = lock_negative_unlocks 2 20 99 (ledger_with 1500) refl (omega arith)

process_transfer_iff_example :
    Queues
      (ledger_with 1500)
      (transfer 10 1 2 (pos 400))
      (process_transfer 10 1 2 (pos 400) (ledger_with 1500))
    × (((process_transfer 10 1 2 (pos 400) (ledger_with 1500)).0 ≡ ok tt) ↔ (
        (is_some ((ledger_with 1500).balances 1 10) ≡ true)
        × (400 ≤ available ((ledger_with 1500).balances 1 10))
        × Grants (ledger_with 1500).now (compliance_of 1 10 (ledger_with 1500))
        × Grants (ledger_with 1500).now (compliance_of 2 10 (ledger_with 1500))))
unfolding update_balance_internal update_balance write_balance publish_balance cache_balance
process_transfer_iff_example =
    process_transfer_iff 10 1 2 400 (ledger_with 1500) {token = security} refl refl
