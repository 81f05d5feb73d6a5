-- ===== src/Syscall.antt =====
-- src/syscall.c and src/syscall.h: the handlers of the system calls and their dispatch.
mod State
mod Handlers
mod Dispatch
pub mod Protect
pub mod Lines
pub mod Sound
pub mod Streams
pub mod Sleep
pub mod Keeps
pub mod Screen
pub mod Tests
unfoldable pub use State.*
unfoldable pub use Handlers.*
unfoldable pub use Dispatch.*
