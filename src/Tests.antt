-- ===== src/Tests.antt =====
-- Concrete runs of the definitions, and the theorems at concrete inputs.
mod Toy
mod TelegramRuns
mod BackoffRuns
mod FrameRuns
mod CatalogRuns
mod SocksRuns
mod RoutingRuns
mod PoolRuns
mod RelayRuns
mod HandshakeRuns
mod ConfigRuns
mod SystemRuns
mod MainRuns
