-- ===== src/Ivr.antt =====
-- Interactive voice response: the machine of menus behind a telephone call.
pub mod Model
pub mod Collection
pub mod Repository
pub mod Machine
pub mod Fsm
pub mod Stored
pub mod Slices
pub mod Paging
pub mod Speed
pub mod ChildId
pub mod Quiz
pub mod Accumulator
pub mod Service
pub mod Consumers
pub mod Samples
mod Examples
mod Cases
