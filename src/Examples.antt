-- ===== src/Examples.antt =====
-- The properties at concrete inputs, on stand-ins for the servers and the libraries.
mod Doubles
mod Sdk
mod Manifests
mod Initializing
mod Targets
mod Commands
mod Clusters
mod Generated
mod Agents
mod Fakes
mod Clientsets
