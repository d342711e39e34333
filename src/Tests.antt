-- ===== src/Tests.antt =====
-- Runs of the model on concrete inputs, and each theorem at an input that meets its hypotheses.
mod Nodes
mod Routing
mod Lru
mod Paths
mod Config
mod Proxy
mod Confinement
mod Admin
mod Origin
mod Discovery
mod Rebuild
mod Node
mod Main
mod Loadgen
