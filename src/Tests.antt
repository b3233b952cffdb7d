-- ===== src/Tests.antt =====
-- Examples: concrete inputs on which the theorems apply.
mod Fixture
mod Wire
mod Files
mod Daemon
mod Shared
mod Idle
mod Together
mod Rest
mod Race
mod Session
mod Waiting
mod Player
mod Process
mod Source
mod Course
