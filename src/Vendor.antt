-- ===== src/Vendor.antt =====
-- libbt/src/bt_vendor_nordic.c: the interface that the stack loads.
pub mod Interface
pub mod Lifecycle
pub mod Powering
pub mod Accounts
pub mod Requests
pub mod Replies
pub mod Sessions
pub mod Owners
pub mod Exchanges
pub mod Service
pub mod Closing
pub mod Failing
pub mod Promises
pub mod Outcomes
pub mod Formats
