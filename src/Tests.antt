-- ===== src/Tests.antt =====
-- Concrete runs of the model, and instances of its theorems.
mod Samples
mod Money
mod Routes
mod Keys
mod Gateway
mod Limits
mod Dashboards
mod Completed
mod Chain
mod Upstream
mod Gemini
mod Seeds
mod Mcp
mod Feeds
mod Marketplace
mod Schemata
mod Apps
mod Sessions
mod Overruns
mod Histories
