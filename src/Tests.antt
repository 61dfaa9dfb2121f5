-- ===== src/Tests.antt =====
-- The theorems applied to concrete inputs, and runs of the definitions.
mod Mail
mod Storage
mod Parts
mod Wire
mod Session
mod Config
mod Greydb
mod Bolt
