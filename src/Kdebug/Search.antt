-- ===== src/Kdebug/Search.antt =====
-- What `stab_binsearch` returns: termination on every table, and the entry that contains the address
-- on a sorted one.
pub mod View
pub mod Total
pub mod Invariant
pub mod Found
