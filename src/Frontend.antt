-- ===== src/Frontend.antt =====
-- frontend/lib: the cart and the amounts of the web client.
pub mod Cart
pub mod CartLaws
pub mod Stroops
pub mod StroopsLaws
pub mod Texts
pub mod Registration
pub mod RegistrationLaws
pub mod Toasts
pub mod Retire
pub mod RetireLaws
pub mod Wallet
pub mod WalletLaws
pub mod Freighter
pub mod RetireEnds
pub mod Admin
pub mod AdminEvents
pub mod AdminLaws
pub mod AdminSafety
pub mod AdminTable
