-- ===== src/Progression/Tests/Data.antt =====
-- A player at 100 Account XP, with 1,600 points of Activity EXP and 50 in the Wallet.
use graphite_bot.Common.{ℕ, Bool, not, ◌==◌, some, [], ◌∷◌}
use graphite_bot.Common.Int.{ℤ, pos}
use graphite_bot.Common.Values.{Text, Digest, active, pending}
use graphite_bot.Progression.Tables.{
  JsonValue, ProgressionPlayer, OperationRow, other_kind, no_result, ProgressionDb, Draws,
}

abbrev pub is_blank : Text → Bool
is_blank text = text == 0

abbrev pub is_filled_object : JsonValue → Bool
is_filled_object value = not (value == 0)

abbrev pub byte_length : Text → ℕ
byte_length text = text

abbrev pub grant_hash : ℤ → Text → Digest
grant_hash amount source = source

abbrev pub player : ℤ → ℤ → ProgressionPlayer
player account_xp wallet = record {
  id = 1;
  discord_user_id = pos 11;
  status = active;
  rebirth_count = pos 3;
  progress = some (record { account_xp = account_xp; activity_xp_points = pos 1_600 });
  wallet = some wallet;
}

-- Operation 5 belongs to another crate and is pending.
abbrev pub owning : OperationRow
owning = record {
  id = 5;
  external_request_key = 40;
  actor_discord_user_id = some (pos 11);
  player_id = some 1;
  kind = other_kind 1;
  state = pending;
  policy_version = 1;
  request_hash = 2;
  rng_root = 3;
  result = no_result;
}

abbrev pub with_player : ProgressionPlayer → ProgressionDb
with_player row = record {
  operations = owning ∷ [];
  players = row ∷ [];
  events = [];
  ledger = [];
  postings = [];
  outbox = [];
}

abbrev pub draws : Draws
draws = record { operation_id = 6; rng_root = 7; transaction_id = 8; event_id = 9; outbox_id = 10 }

abbrev pub later_draws : Draws
later_draws = record {
  operation_id = 16;
  rng_root = 17;
  transaction_id = 18;
  event_id = 19;
  outbox_id = 20;
}
