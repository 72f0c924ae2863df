-- ===== src/Tests.antt =====
-- Runs of the definitions on concrete inputs, and the theorems at inputs that meet their hypotheses.
mod MemTests
mod VirtioTests
mod NetTests
mod RuntimeTests
mod SandboxTests
mod CacheTests
mod VmmTests
mod SnapshotTests
mod PolicyTests
mod BootTests
mod CpioTests
mod LongModeTests
mod EyeTests
mod AgentTests
mod WasmTests
