-- ===== src/Vocabulary.antt =====
-- apps/api/src/words and apps/api/src/packages: the words of the packages, and the tables that
-- they share.
pub mod Tables
pub mod Samples
mod Tests
pub mod Enrichment
pub mod Words
pub mod Editing
pub mod Integrity
pub mod Packages
pub mod Saving
pub mod Adding
pub mod Once
pub mod Claiming
pub mod Delivery
pub mod Sharing
pub mod Owning
pub mod Updating
pub mod Renaming
pub mod Isolation
pub mod Deleting
pub mod Copying
pub mod Publishing
pub mod Batches
