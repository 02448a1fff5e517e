-- ===== src/Tests.antt =====
-- Runs of the service at concrete inputs, one for each result.
mod Data
mod Registering
mod CheckingIn
mod Tokens
mod Texts
mod Inviting
mod Eventing
mod Jobs
mod Grouping
mod Running
mod Bodies
