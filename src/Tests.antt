-- ===== src/Tests.antt =====
-- Runs of the definitions, and the theorems applied to them.
mod ConfigTests
mod RuleSetTests
mod DbTests
mod StatsTests
mod LogTests
mod ServerTests
mod UpstreamTests
mod HttpTests
mod ListTests
mod WhoisTests
mod UtilsTests
mod AssetTests
mod BlockTests
mod IncludeTests
mod StoreTests
