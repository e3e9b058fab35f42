-- ===== src/Command.antt =====
-- `src/client.rs` and `src/command.rs`: commands, and the bytes that a hash reads of them.
use bft_kit.Base.{ℕ, ◌/◌, ◌%◌, List, [], ◌∷◌, ◌++◌}

pub record Command : Type 0 where
  -- A `ClientId`, which wraps a `u32`.
  pub client_id : ℕ
  pub seq : ℕ
  pub op : List ℕ

-- `u32::to_le_bytes`.
abbrev pub u32_le_bytes : ℕ → List ℕ
u32_le_bytes n = (n % 256) ∷ (n / 256 % 256) ∷ (n / 65536 % 256) ∷ (n / 16777216 % 256) ∷ []

-- `u16::to_le_bytes`.
abbrev pub u16_le_bytes : ℕ → List ℕ
u16_le_bytes n = (n % 256) ∷ (n / 256 % 256) ∷ []

-- `Id::to_le_bytes`.
unfoldable pub to_le_bytes : ℕ → List ℕ
to_le_bytes client_id = u32_le_bytes client_id

-- `Command::update`: what it feeds to the hash, in order.
unfoldable pub command_bytes : Command → List ℕ
unfolding to_le_bytes
command_bytes command = to_le_bytes command.client_id ++ (u32_le_bytes command.seq ++ command.op)

-- `<&[T]>::update` at commands: the items one after another, with no length before them.
unfoldable pub commands_bytes : List Command → List ℕ
unfolding command_bytes
commands_bytes [] = []
commands_bytes (command ∷ commands) = command_bytes command ++ commands_bytes commands
