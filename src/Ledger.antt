-- ===== src/Ledger.antt =====
-- Journal entries and bank movements: the parts of the program that compute with amounts.
pub mod Journal
mod Tests
pub mod BankRepair
pub mod Matching
