-- ===== src/Views.antt =====
-- views.c: a view of a zone, the changes that it notes, and how it catches up with the change logs of
-- the others and commits its own.
pub mod Changes
pub mod Loop
pub mod Sticky
pub mod Update
pub mod Commit
pub mod Store
pub mod Usable
pub mod Calls
pub mod Apply
pub mod Conflicts
pub mod Detection
pub mod Serving
pub mod Samples
mod Tests
