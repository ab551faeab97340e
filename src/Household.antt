-- ===== src/Household.antt =====
-- The household ledger of src/penge/household: categories, merchants and their aliases, the
-- classification of bank movements, rules that are learned from corrections, previews and undo.
pub mod Labels
pub mod Schemas
pub mod Store
pub mod Categories
pub mod Outs
pub mod Rules
pub mod Learn
pub mod Splits
pub mod Links
pub mod Classifications
pub mod Frame
pub mod Merchants
pub mod Previews
pub mod Approval
pub mod Sync
pub mod Evolution
pub mod Protection
pub mod Runs
pub mod Details
