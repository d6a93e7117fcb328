-- ===== src/Examples.antt =====
-- The theorems at concrete inputs.
mod Subscriptions
mod Retained
mod Deliveries
mod Sessions
mod Access
mod Wire
mod Sharing
mod Throttling
mod LastWills
mod Matches
mod Relaying
mod Takeovers
