-- ===== src/Sdk.antt =====
-- The generated SDK under sdk/.
pub mod Types
pub mod Informers
pub mod ApplyConfiguration
pub mod TemplateConfiguration
pub mod Listers
pub mod DeepCopy
pub mod Typed
pub mod Fakes
pub mod Clientset
