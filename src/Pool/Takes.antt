-- ===== src/Pool/Takes.antt =====
-- What `close_batch` of a command pool does to the number of pending commands.
use bft_kit.Base.{ℕ, ◌≤◌, ◌<◌, Option, none, some, List, length}
use bft_kit.Command.{Command}

-- Nothing is returned, or some command is, and there are fewer.
abbrev pub Takes : ℕ → ℕ → Option (List Command) → Type 0
Takes before after none = after ≤ before
Takes before after (some commands) = (0 < length commands) × (after < before)
