-- ===== src/Tests.antt =====
-- Concrete runs of the operations, one for each theorem that has hypotheses.
mod Wire
mod Peers
mod Servers
mod Files
mod Queues
mod Repos
mod Managers
mod Conns
