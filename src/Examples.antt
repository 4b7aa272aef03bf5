-- ===== src/Examples.antt =====
-- Tests of the definitions, and the theorems at concrete inputs, by part.
mod Assemblies
mod Clocks
mod ExchangeRuns
mod Flights
mod Journaled
mod Journals
mod Leases
mod PipelineService
mod Pipelines
mod Pools
mod Pumps
mod Sizes
mod Versions
