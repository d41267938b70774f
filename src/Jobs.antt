-- ===== src/Jobs.antt =====
-- src/jobs.c: the list of background jobs.
pub mod JobTable
pub mod Numbers
pub mod Printing
pub mod Listing
pub mod Joining
mod Tests
