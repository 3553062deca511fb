-- ===== src/Util.antt =====
-- src/util.cpp and src/util.hpp, by subject.
pub mod CString
pub mod Decimal
pub mod Endpoint
pub mod Files
pub mod Parameter
pub mod Pathname
pub mod Strtol
