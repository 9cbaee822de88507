-- ===== src/Consensus/Agreement.antt =====
-- Two followers that commit a block in the same round commit the same one.
mod Tests
use prellblock.Prelude.{◌<◌, ◌≡◌, sym, ◌∙◌, true, false, List, length, arith}
use mathlib.Core.List.{Memᴰ}
use prellblock.Prelude.Sets.{contains, common, contains-common, member-other}
use prellblock.Pinxit.{PeerId, Identity}
use prellblock.Api.Account.{Time}
use prellblock.Api.Block.{signers}
use prellblock.WorldState.Consistency.{IsConsistent}
use prellblock.Consensus.Message.{Metadata, Commit}
use prellblock.Consensus.Core.{Externals}
use prellblock.Consensus.Core.Quorum.{more_than_faulty}
use prellblock.Consensus.Store.{BlockStore}
use prellblock.Consensus.Follower.{Node}
use prellblock.Consensus.Follower.Handlers.Decided.{Decision, decisions_intersect}
use prellblock.Consensus.Dispatch.{Instance}
use prellblock.Consensus.Dispatch.Runs.{Run, Run-agrees}

module _ (store : BlockStore) (x : Externals) where
  -- A peer that runs the program. If the acknowledgements of one of the two messages carry its
  -- signature, it has acknowledged what that message commits.
  pub record Correct (message message' : Commit) (p : PeerId) : Type 0 where
    pub identity : Identity
    pub is_peer : identity.id ≡ p
    pub first : Instance store x
    pub last : Instance store x
    pub acknowledged : List Metadata
    pub run : Run store x identity first acknowledged last
    pub signed :
        contains (signers message.ackappend_signatures) p ≡ true
        → Memᴰ message.metadata acknowledged
    pub signed' :
        contains (signers message'.ackappend_signatures) p ≡ true
        → Memᴰ message'.metadata acknowledged

  -- Two followers with the same consistent world state have committed bodies by two messages of one
  -- leader term and block number. If no more peers are faulty than the protocol allows, and each of the
  -- others runs the program without fetching blocks and has acknowledged what carries its signature,
  -- then both bodies have the same hash.
  pub decisions_agree :
      (now : Time) (message message' : Commit) (n n' m m' : Node store x.hash)
      (faulty : List PeerId)
      → IsConsistent n.world.current
      → n'.world.current ≡ n.world.current
      → (d : Decision store x now message n m) → (d' : Decision store x now message' n' m')
      → length faulty < more_than_faulty (length n.world.current.peers)
      → ((p : PeerId) → contains faulty p ≡ false → Correct message message' p)
      → message.metadata.leader_term ≡ message'.metadata.leader_term
      → message.metadata.block_number ≡ message'.metadata.block_number
      → x.hash d.body ≡ x.hash d'.body
  decisions_agree now message message' n n' m m' faulty c same d d' few correct t b =
      let (distinct, enough, signed, signed') =
        decisions_intersect store x now message message' n n' m m' c same d d' in
      let both =
        common (signers message.ackappend_signatures) (signers message'.ackappend_signatures) in
      let (p, member, healthy) = member-other both faulty distinct (omega arith) in
      let of_both =
        contains-common p (signers message.ackappend_signatures)
          (signers message'.ackappend_signatures) in
      let k = correct p healthy in
      d.is_hash
      ∙ Run-agrees store x k.identity k.first k.last k.acknowledged message.metadata
          message'.metadata k.run (k.signed (ground arith)) (k.signed' (ground arith)) t b
      ∙ sym d'.is_hash
