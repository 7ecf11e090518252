-- ===== src/Tests.antt =====
-- Runs of the models on concrete inputs, and the theorems at inputs that meet their hypotheses.
mod MsgpackTests
mod RpcTests
mod LogSetupTests
mod LoggingTests
mod MetricsTests
mod CliTests
mod CommandTests
mod DataDirTests
mod EndToEndTests
mod MakeTests
mod ClientTests
mod RotateTests
mod FlagTests
mod MainTests
