-- ===== src/World.antt =====
-- What a request runs against: the database, the clock, the random sources and the outgoing
-- mail, and the actions on it. An action returns a result or raises; the world comes back beside
-- both, since outside `transaction.atomic()` what was written before a raise stays written (the
-- settings do not set ATOMIC_REQUESTS).
mod Monad
mod Invariants
mod Results
mod External
mod Create
mod CreateContent
pub use Monad.*
unfoldable pub use Results.*
unfoldable pub use Invariants.*
pub use External.*
unfoldable pub use Create.*
unfoldable pub use CreateContent.*
