-- ===== src/Tests.antt =====
-- Runs of the definitions, and the theorems at concrete inputs.
mod FrameRuns
mod StreamRuns
mod ShmRuns
mod CacheRuns
mod SecurityRuns
mod PipelineRuns
mod ServerRuns
mod ClientRuns
mod ExchangeRuns
mod BuiltinRuns
mod RpcRuns
mod BaselineRuns
mod MessageRuns
