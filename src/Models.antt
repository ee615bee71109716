-- ===== src/Models.antt =====
-- The read models of the services, as encoding/json fills them.
pub mod Accounts
pub mod Categories
pub mod Months
pub mod Payees
pub mod Movements
pub mod Transactions
pub mod Scheduled
pub mod Plans
