-- ===== src/Consensus.antt =====
-- algorand: the agreement of a round. Its parts are the sortition, the proposals and messages that a
-- peer keeps, the count of the votes, and the protocol over the counts.
pub mod Parameters
pub mod Sortition
pub mod Messages
pub mod Counting
pub mod Protocol
mod Tests
