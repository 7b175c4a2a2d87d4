-- ===== src/Addr.antt =====
-- Address assignment: the four modules of which a build includes one.
pub mod DevType
pub mod Static
