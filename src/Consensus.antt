-- ===== src/Consensus.antt =====
-- prellblock/src/consensus: the PRaftBFT consensus of the RPUs.
pub mod Error
pub mod Message
pub mod Core
pub mod Validation
pub mod ViewChange
pub mod Store
pub mod Follower
pub mod Leader
pub mod Dispatch
pub mod Agreement
pub mod Notify
