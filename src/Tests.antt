-- ===== src/Tests.antt =====
-- Runs at concrete inputs, which show that the hypotheses of the theorems can hold.
pub mod RadioTests
pub mod FrameTests
pub mod StoreTests
pub mod PowerTests
pub mod ServeTests
pub mod SensorTests
pub mod LinkTests
pub mod CliTests
pub mod DumpTests
pub mod PeriodTests
pub mod ConsoleTests
