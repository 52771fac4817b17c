-- ===== src/Tax.antt =====
-- The tax side of the program (app/services): the official forms and their drafts, withholding at
-- source, the calendar of due dates, and the identification of taxpayers.
pub mod Catalog
mod FormTests
mod DraftTests
mod RateTests
mod BuilderTests
mod JournalTests
mod IncomeTests
pub mod Forms
pub mod Drafts
pub mod Withholding
pub mod Nit
pub mod Losses
pub mod Accumulators
pub mod Calendar
pub mod Builders
