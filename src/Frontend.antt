-- ===== src/Frontend.antt =====
-- frontend/src: the logic of the hooks and of the lib folder, without React.
pub mod Client
pub mod Pagination
pub mod Filters
pub mod Submit
pub mod Admin
pub mod AutoSave
pub mod Items
pub mod Wizard
pub mod Toasts
pub mod Forms
pub mod Registration
pub mod Whitelist
pub mod Countdown
pub mod Gauge
pub mod Preferences
pub mod Rates
pub mod Wallet
pub mod ButtonState
