-- ===== src/Shell.antt =====
-- src/shell.c: the command line and its commands.
mod State
mod Help
mod Screens
mod Files
mod Tasks
mod Calc
mod Execute
mod Login
pub mod Sound
pub mod Kept
pub mod KeptTasks
pub mod Keeps
pub mod Words
pub mod Recent
pub mod Entry
pub mod LetIn
mod Tests
unfoldable pub use State.*
unfoldable pub use Help.*
unfoldable pub use Screens.*
unfoldable pub use Files.*
unfoldable pub use Tasks.*
unfoldable pub use Calc.*
unfoldable pub use Execute.*
unfoldable pub use Login.*
