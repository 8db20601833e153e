-- ===== src/Tests.antt =====
-- Runs of the definitions at concrete inputs, and each theorem at an input that meets its hypotheses.
mod Samples
mod CrawlSamples
mod Crawl
mod Query
mod Infra
mod Dedup
mod Jobs
mod Worker
mod Changes
mod Editions
mod Recovery
mod Progress
mod Command
