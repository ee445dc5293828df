-- ===== src/Checks.antt =====
-- Runs of the model on concrete inputs, and the theorems at inputs that meet their hypotheses.
mod Data
mod Sms
mod Tasks
mod Agent
mod Reading
mod Queue
mod Commands
mod Hub
mod Sessions
mod Accounts
mod Login
mod Toolbox
mod Listing
mod Titles
mod Schedules
mod Gateway
mod Server
