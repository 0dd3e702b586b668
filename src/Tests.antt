-- ===== src/Tests.antt =====
-- Concrete runs, and the theorems at concrete inputs.
mod RouteTests
mod CompleteTests
mod ConfigTests
mod DaemonTests
mod NodeTests
mod BackendTests
mod EventTests
mod RemoteTests
mod ScreenTests
mod SaveTests
mod InputTests
mod SshTests
mod ViewTests
mod SysTests
mod UiTests
mod TrackerTests
mod SessionTests
mod UnmountTests
