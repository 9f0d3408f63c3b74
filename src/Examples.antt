-- ===== src/Examples.antt =====
-- The theorems at concrete requests, answers and states.
mod Values
mod Retries
mod Calls
mod Execs
mod Jobs
mod Groups
mod Relays
mod Admissions
mod Waits
mod Archives
mod Https
mod Twins
mod Workers
mod Sessions
mod Images
