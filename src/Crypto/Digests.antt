-- ===== src/Crypto/Digests.antt =====
-- What a block's digest does and does not tell apart.
use mathlib.Core.List.{append-nil, append_assoc}
use bft_kit.Base.{◌≡◌, List, [], ◌∷◌, ◌++◌}
use bft_kit.Command.{Command, commands_bytes}
use bft_kit.Crypto.{Primitives, block_digest}

-- The one command that swallows the bytes of the commands behind it.
pub swallow : Command → List Command → Command
swallow c cs = record c { op = c.op ++ commands_bytes cs }

-- The hash reads no length between two commands. So a block has the digest of the block with a
-- single command, whose operation goes on with the bytes of the other commands, whatever the hash.
pub block_digest-swallow :
    (prim : Primitives) (c : Command) (cs : List Command)
    → block_digest prim (c ∷ cs) ≡ block_digest prim (swallow c cs ∷ [])
unfolding block_digest commands_bytes swallow
block_digest-swallow prim c cs = simp (append_assoc, append-nil)
