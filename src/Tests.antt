-- ===== src/Tests.antt =====
-- Runs of the theorems on small stores, and tests of the definitions on concrete inputs.
mod Samples
mod StoreExamples
mod SubmitterExamples
mod PollerExamples
mod ArchiveExamples
mod HandlerExamples
mod MysqlExamples
mod WebhookExamples
mod CacheExamples
mod ConfigExamples
mod ServerExamples
mod WorkerExamples
mod ClientExamples
mod AgreementExamples
mod CircleExamples
