-- ===== src/Samples.antt =====
-- Runs of the definitions on concrete inputs, and the theorems at them.
mod Columns
mod Accounting
mod Auth
mod Books
mod Queue
mod Jobs
mod Claims
mod Tenant
mod Tasks
mod Reviews
mod Inbound
mod Catalog
mod Contacts
mod Deliveries
