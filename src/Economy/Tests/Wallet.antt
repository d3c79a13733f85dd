-- ===== src/Economy/Tests/Wallet.antt =====
-- A Wallet spend of 30 out of 100 for a pending operation.
use graphite_bot.Common.{Bool, ◌==◌, not, ◌≡◌, refl, none, some, [], ◌∷◌, ok}
use graphite_bot.Common.Int.{pos, ◌-ℤ◌}
use graphite_bot.Common.Values.{Text, active, pending}
use graphite_bot.Economy.Wallet.Tables.{
  JsonValue, WalletSpendRequest, WalletSpendReceipt, LockedWalletSpendContext, WalletDb,
}
use graphite_bot.Economy.Wallet.{
  apply_wallet_spend, lock_new_wallet_spend_context, lock_existing_ledger, validate_request,
  ledger_transaction, spend_postings,
}
use graphite_bot.Economy.Wallet.Spent.{Spent, apply_wallet_spend-Spent, apply_wallet_spend_within}
use graphite_bot.Economy.Wallet.Again.{apply_wallet_spend_idempotent}

abbrev is_blank : Text → Bool
is_blank text = text == 0

abbrev is_filled_object : JsonValue → Bool
is_filled_object value = not (value == 0)

abbrev request : WalletSpendRequest
request = record { operation_id = 5; player_id = 1; amount = pos 30; source = 9; provenance = 4 }

abbrev db : WalletDb
db = record {
  operations = record { id = 5; player_id = some 1; state = pending } ∷ [];
  players =
      record {
        id = 1;
        discord_user_id = pos 11;
        status = active;
        wallet = pos 100;
        bank = pos 0;
        liability = pos 0;
      }
      ∷ [];
  ledger = [];
  postings = [];
}

abbrev receipt : WalletSpendReceipt
receipt = record {
  ledger_transaction_id = 77;
  operation_id = 5;
  player_id = 1;
  amount = pos 30;
  source = 9;
  wallet_before = pos 100;
  wallet_after = pos 70;
}

-- The tables after the spend, by their difference from those before.
abbrev after : WalletDb
after = record db {
  players =
      record {
        id = 1;
        discord_user_id = pos 11;
        status = active;
        wallet = pos 70;
        bank = pos 0;
        liability = pos 0;
      }
      ∷ [];
  ledger = ledger_transaction request receipt ∷ [];
  postings = spend_postings request 77 [];
}

spent : apply_wallet_spend is_blank is_filled_object 77 request db ≡ ok (receipt, after)
unfolding apply_wallet_spend ◌-ℤ◌
spent = refl

apply_wallet_spend_idempotent_example :
    apply_wallet_spend is_blank is_filled_object 78 request after ≡ ok (receipt, after)
apply_wallet_spend_idempotent_example =
    apply_wallet_spend_idempotent is_blank is_filled_object 77 78 request db tt spent

no_ledger : lock_existing_ledger 5 db.ledger ≡ none
unfolding lock_existing_ledger
no_ledger = refl

apply_wallet_spend-Spent_example : Spent request db receipt after
apply_wallet_spend-Spent_example =
    apply_wallet_spend-Spent is_blank is_filled_object 77 request db no_ledger spent

abbrev context : LockedWalletSpendContext
context = record { operation_id = 5; player_id = 1; wallet = pos 100 }

locked : lock_new_wallet_spend_context 5 1 db ≡ ok context
unfolding lock_new_wallet_spend_context
locked = refl

request_valid : validate_request is_blank is_filled_object request ≡ ok tt
unfolding validate_request
request_valid = refl

apply_wallet_spend_within_example :
    (made : WalletSpendReceipt) × (db' : WalletDb) × (apply_wallet_spend is_blank is_filled_object
        77 request db
      ≡ ok (made, db'))
    × (made.wallet_before ≡ context.wallet)
    × (made.wallet_after ≡ context.wallet -ℤ pos 30)
apply_wallet_spend_within_example =
    apply_wallet_spend_within is_blank is_filled_object 77 request db locked request_valid refl refl
