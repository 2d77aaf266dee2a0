-- ===== src/WorkItemService.antt =====
-- application/work_item_lifecycle.py: the idempotent handlers WorkItemLifecycleHandler (Action) and
-- ResolveDependencyHandler (Resolution), over the tables of the unit of work (Model).
pub mod Model
pub mod Action
pub mod Resolution
pub mod Creation
pub mod Blocking
pub mod Effects
pub mod Replay
mod Examples
