-- ===== src/Hotstuff/Replica/Examples.antt =====
-- The leader of HotStuff and a backup, run on their first messages.
use bft_kit.Base.{
  inl, some, ℕ, suc, ◌<◌, ◌≡◌, ◌≢◌, refl, false, none, List, [], ◌∷◌, length, Outcome, done, panic,
  out_of_fuel, arith,
}
use bft_kit.Base.Map.{Map, insert, lookup, extend_entry}
use bft_kit.Pool
use bft_kit.Pool.CloseLoop
use bft_kit.Crypto
use bft_kit.Crypto.{Primitives, digest}
use bft_kit.Crypto.Examples.{toy}
use bft_kit.Crypto.Threshold.{PublicCommitments, Signers, Sig, PartialSig}
use bft_kit.Crypto.Threshold.Examples.{toy_schemes}
use bft_kit.Hotstuff.Message
use bft_kit.Hotstuff.Message.{Generic, VoteGeneric, block_bytes}
use bft_kit.Hotstuff.Core.{
  ReplicaCoreConfig, NodeData, ReplicaCore, ReplicaCoreEvent, ReplicaCoreAction, Actions, handle,
}
use bft_kit.Hotstuff.Core
use bft_kit.Hotstuff.Core.Ancestors.{Ranked, new-Ranked}
use bft_kit.Hotstuff.Examples.{list_slab, list_slab-IsSlab}
use bft_kit.Hotstuff.Replica.{Replica, CryptoConfig, ToReplica, Sent, new}
use bft_kit.Hotstuff.Replica.Receive.{Flow, return, dispatch}
use bft_kit.Hotstuff.Replica.Effects.{on_propose, perform, effect_core_actions, receive}
use bft_kit.Hotstuff.Replica.Chosen.{Proposed, on_propose-Proposed}
use bft_kit.Hotstuff.Replica.Matched.{dispatch-ends}
use bft_kit.Hotstuff.Replica.Load.{load}
use bft_kit.Hotstuff.Replica.Rounds.{effect_enough}
use bft_kit.Hotstuff.Replica.Released.{Waits, Fits, flow_replica}
use bft_kit.Hotstuff.Replica.Waits.{IsLeft, receive-Waits}
use bft_kit.Hotstuff.Replica.Unspent.{Unspent}
use bft_kit.Hotstuff.Replica.Rejects.{uncounted, receive-panic}

abbrev config_of : ℕ → ReplicaCoreConfig
config_of i = record {
  spec = record { num_faulty = 1; num_replica = 4 };
  id = i;
  open_loop = false;
  max_batch_size = 1;
}

abbrev crypto_config : CryptoConfig
crypto_config = record { key_share = 7; supply_size = 2; refill_threshold = 1 }

abbrev first_node : NodeData
first_node = record {
  parent = 0;
  commands = record { client_id = 2; seq = 1; op = [] } ∷ [];
  justify = 0;
  height = 1;
}

abbrev first_block : Message.Block
first_block = record {
  parent = 0;
  commands = record { client_id = 2; seq = 1; op = [] } ∷ [];
  justify = record { node = 0; sig = Sig.vec [] };
  height = 1;
}

-- What the test in the code hashes the block to, with the toy hash.
abbrev first_digest : ℕ
first_digest = 43019

first_digest_lem : digest toy (block_bytes first_block) ≡ first_digest
unfolding digest block_bytes
first_digest_lem = refl

abbrev commitments : ℕ → PublicCommitments
commitments i = record { hiding_comm = i; binding_comm = 7 }

abbrev leader : Replica list_slab
leader = record (new list_slab (config_of 0) crypto_config) {
  public_commitments_pool =
      (0, commitments 1 ∷ commitments 2 ∷ [])
      ∷ (1, [])
      ∷ (2, commitments 3 ∷ [])
      ∷ (3, commitments 4 ∷ commitments 5 ∷ [])
      ∷ [];
}

abbrev sent_of : Outcome (Sent list_slab) → Sent list_slab
sent_of (done sent) = sent
sent_of panic = (leader, [])
sent_of out_of_fuel = (leader, [])

abbrev proposed : Outcome (Sent list_slab)
proposed = on_propose list_slab toy toy_schemes leader first_node

proposed_done : proposed ≡ done (sent_of proposed)
unfolding on_propose new Core.new handle digest block_bytes insert lookup Pool.close_batch
    Pool.new_close_loop CloseLoop.close_batch
proposed_done = refl

on_propose-Proposed_example :
    Proposed list_slab toy toy_schemes leader first_node (sent_of proposed)
on_propose-Proposed_example =
    on_propose-Proposed list_slab toy toy_schemes leader first_node (omega arith) proposed_done

abbrev backup : Replica list_slab
backup = new list_slab (config_of 1) crypto_config

abbrev signers : Signers
signers = (0, commitments 2) ∷ (1, commitments 3) ∷ (3, commitments 5) ∷ []

abbrev in_order : Map Crypto.Sig → List (ℕ × Crypto.Sig)
in_order m = m

-- A block whose parent has not come.
abbrev orphan : Message.Block
orphan = record {
  parent = 99;
  commands = [];
  justify = record { node = 0; sig = Sig.vec [] };
  height = 2;
}

abbrev orphan_message : ToReplica
orphan_message = ToReplica.generic (record { block = 36806; signers = signers }) orphan

abbrev flow_of : Outcome (Flow list_slab) → Flow list_slab
flow_of (done flow) = flow
flow_of panic = return backup
flow_of out_of_fuel = return backup

abbrev postponed : Outcome (Flow list_slab)
postponed = dispatch list_slab toy toy_schemes in_order backup orphan_message

postponed_done : postponed ≡ done (flow_of postponed)
unfolding dispatch new Core.new digest block_bytes insert lookup extend_entry
postponed_done = refl

one_waits : length (flow_replica list_slab (flow_of postponed)).reordering_blocks ≡ 1
unfolding dispatch new Core.new digest block_bytes insert lookup extend_entry
one_waits = refl

-- A backup in which another block waits for the node already.
abbrev behind : Replica list_slab
behind = record backup { reordering_blocks = (99, (500, orphan) ∷ []) ∷ [] }

abbrev received : Outcome (Sent list_slab)
received = receive list_slab toy toy_schemes in_order 1 behind orphan_message

received_done : received ≡ done (sent_of received)
unfolding receive dispatch new Core.new digest block_bytes insert lookup extend_entry
received_done = refl

behind-Fits : Fits list_slab behind
unfolding new
behind-Fits = ((inl refl, tt), tt)

receive-Waits_example :
    Fits list_slab (sent_of received).0
    × ((flow : Flow list_slab) × ((dispatch list_slab toy toy_schemes in_order behind orphan_message
            ≡ done flow)
          × Waits list_slab (IsLeft list_slab behind) (flow_replica list_slab flow)))
receive-Waits_example =
    receive-Waits list_slab toy toy_schemes in_order 1 behind orphan_message received_done
      behind-Fits

two_wait :
    lookup 99 (sent_of received).0.reordering_blocks ≡ some ((500, orphan) ∷ (36806, orphan) ∷ [])
unfolding receive dispatch new Core.new digest block_bytes insert lookup extend_entry
two_wait = refl

backup-Ranked : Ranked list_slab backup.core
unfolding new
backup-Ranked = new-Ranked list_slab list_slab-IsSlab (config_of 1)

dispatch-ends_example :
    dispatch list_slab toy toy_schemes in_order backup orphan_message ≢ out_of_fuel
dispatch-ends_example =
    dispatch-ends toy toy_schemes in_order list_slab list_slab-IsSlab backup orphan_message
      backup-Ranked

-- A backup that is to vote for the node of its slab, with the nonce of its fourth draw.
abbrev voter : Replica list_slab
voter = record backup {
  nonces = (commitments 3, 103) ∷ [];
  draws = 4;
  block_signers = (0, signers) ∷ [];
}

abbrev voted : Outcome (Sent list_slab)
voted = perform list_slab toy toy_schemes voter (ReplicaCoreAction.vote 0)

abbrev stray : VoteGeneric
stray = record { node = 5; partial_sig = PartialSig.givre 1; signer_index = 2 }

stray_uncounted : lookup 5 backup.quorum_cert_scratches ≡ none
unfolding new lookup
stray_uncounted = refl

receive-panic_example :
    receive list_slab toy toy_schemes in_order 3 backup (ToReplica.vote_generic stray) ≡ panic
receive-panic_example =
    receive-panic list_slab toy toy_schemes in_order 3 backup stray (uncounted stray_uncounted)

-- The leader with its first proposal to perform.
abbrev proposing : Replica list_slab
proposing = record leader { core_actions = ReplicaCoreAction.propose first_node ∷ [] }

leader-Ranked : Ranked list_slab proposing.core
unfolding new
leader-Ranked = new-Ranked list_slab list_slab-IsSlab (config_of 0)

proposing_room : 0 < proposing.core.config.max_batch_size
unfolding new Core.new
proposing_room = omega arith

effect_enough_example :
    effect_core_actions list_slab toy toy_schemes (suc (load list_slab proposing)) proposing
    ≢ out_of_fuel
effect_enough_example =
    effect_enough list_slab list_slab-IsSlab toy toy_schemes (suc (load list_slab proposing))
      proposing proposing_room leader-Ranked (omega arith)
