-- ===== src/Process.antt =====
-- src/process.c and src/process.h: the table of 16 processes, their creation and end, and the
-- round-robin scheduler, with src/context_switch.s. The definitions stand in the first four children.
mod State
mod Create
mod Finish
mod Turns
pub mod Tests
pub mod Switch
pub mod Table
pub mod Calls
pub mod Schedule
pub mod Fairness
unfoldable pub use State.*
unfoldable pub use Create.*
unfoldable pub use Finish.*
unfoldable pub use Turns.*
