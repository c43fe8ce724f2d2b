-- ===== src/Acl.antt =====
-- internal/acl: who may read, write or administer a pipe, and why.
pub mod Perm
pub mod Selector
pub mod Model
pub mod Evaluate
pub mod Compile
pub mod Preview
mod Tests
