-- ===== src/Items/Tests/Data.antt =====
-- A player with 36 slots, all taken, of which one holds a stack of 60 out of 64.
use graphite_bot.Common.{ℕ, Bool, true, some, [], ◌∷◌, leb, not}
use graphite_bot.Common.Int.{ℤ, pos}
use graphite_bot.Common.Values.{Text, active, pending}
use graphite_bot.Items.Tables.{
  JsonValue, item_bag, tool_locker, StackRow, DefinitionRow, OperationRow, ItemDb,
}

-- Text 0 is blank, a text of id n has n bytes, and the JSON value 0 has no field.
abbrev pub is_blank : Text → Bool
is_blank text = leb text 0

abbrev pub byte_length : Text → ℕ
byte_length text = text

abbrev pub is_filled_object : JsonValue → Bool
is_filled_object value = not (leb value 0)

abbrev pub ore : StackRow
ore = record {
  player_id = 1;
  definition_key = 7;
  definition_version = pos 2;
  location = item_bag;
  quantity = pos 60;
}

abbrev pub bricks : StackRow
bricks = record {
  player_id = 1;
  definition_key = 8;
  definition_version = pos 1;
  location = item_bag;
  quantity = pos 340;
}

abbrev pub definition : Text → ℤ → ℤ → DefinitionRow
definition key version limit = record {
  key = key;
  version = version;
  stackable = true;
  stack_limit = some limit;
}

abbrev pub operation : OperationRow
operation = record { id = 40; player_id = some 1; state = pending }

abbrev pub db : ItemDb
db = record {
  operations = operation ∷ [];
  players = record { id = 1; status = active; item_bag_level = some (pos 0) } ∷ [];
  definitions = definition 7 (pos 2) (pos 64) ∷ definition 8 (pos 1) (pos 10) ∷ [];
  stacks = ore ∷ bricks ∷ [];
  items =
      record { id = 90; owner_player_id = 1; location = item_bag }
      ∷ record { id = 91; owner_player_id = 1; location = tool_locker }
      ∷ [];
  pending_deliveries = [];
  events = [];
}
