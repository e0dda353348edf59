-- ===== src/Storage.antt =====
-- src/storage.cpp: the game's state as a JSON document, written and read back, and the two documents
-- saved together. nlohmann::ordered_json is a parameter, of which Json gives what the code uses; what
-- throws in the source is none.
pub mod Json
pub mod Document
pub mod Tables
pub mod Sections
pub mod Reading
pub mod Written
pub mod Keeping
pub mod Atomic
