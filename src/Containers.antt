-- ===== src/Containers.antt =====
-- The ordered containers of the C++ standard library that the servers keep: std::set and std::map
-- with host ids or room numbers as keys, as lists in increasing order, and strings.
pub mod IdSet
pub mod IdMap
pub mod TextMap
pub mod TextSet
