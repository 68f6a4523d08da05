-- ===== src/BTreeMap.antt =====
-- `std::collections::BTreeMap`, as the list of its entries by rising key. The key's order is an
-- instance argument; `insert` is `lookup` for the value that it replaces, and `put`.
mod Laws
mod Keys
mod Defs
pub use Laws.*
unfoldable pub use Keys.{text_ord, text_cmp}
unfoldable pub use Defs.*
