-- ===== src/Bookkeeper.antt =====
-- main/p2p/Bookkeeper.cpp: who has what, and how well the peers do. Each operation holds the mutex
-- from its first access to its last, so it is a function from state to state. `A` stands for the
-- remote socket addresses that are set, `none` for one that is not, and `N` for the notices.
pub mod Pub
pub mod Sub
