-- ===== src/Domain.antt =====
-- crates/pipe-bolt-domain: the data model and its validation.
pub mod Error
pub mod Id
pub mod Config
pub mod Rule
pub mod Event
pub mod Project
