-- ===== src/Ids.antt =====
-- src/pypstreader/ndb/ids.py: the identifiers of the node database layer.
--
-- A raw value is a number below 2 ^ 32 or 2 ^ 64, which the constructors check as `__post_init__`
-- does. `x & mask` for a mask of the low bits is written `x % 2 ^ k`, `x >> k` is `x / 2 ^ k`, and
-- `(x << k) | y` for a `y` of `k` bits is `x * 2 ^ k + y`. The texts of `__str__` are not modelled.
pub mod NodeId
pub mod BlockId
pub mod Refs
pub mod Laws
