-- ===== src/Conference.antt =====
-- Conference calls: the state of a call, the events that change it, the telephone provider behind
-- it, and the registry of running calls.
pub mod Model
pub mod World
pub mod RedisStore
pub mod Dialing
pub mod Vonage
pub mod Call
pub mod Events
pub mod Manager
pub mod CallerState
pub mod Dispatcher
pub mod Validity
pub mod Drain
mod Examples
mod Cases
mod Samples
