-- ===== src/Feishu.antt =====
-- domain/feishu.py: the entities of the Feishu integration that have methods.
pub mod Enums
pub mod Checkpoint
pub mod Message
pub mod Authorization
