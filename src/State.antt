-- ===== src/State.antt =====
-- netd_state_t of netd.h, the kernel as the daemon sees it, and the monad of the handlers.
mod Globals
mod Kernel
mod Monad
unfoldable pub use Globals.*
pub use Kernel.*
pub use Monad.*
