-- ===== src/Hooks.antt =====
-- web/src/queries/hooks.ts: the mutations that write to the query cache. The query client is another
-- package's: it is the interface `QueryClient`, whose laws are those that its documentation gives
-- for reading back what was written.
pub mod Client
pub mod Users
pub mod Optimistic
pub mod Reloads
pub mod Identity
mod Tests
