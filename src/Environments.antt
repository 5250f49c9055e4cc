-- ===== src/Environments.antt =====
-- internal/environments/manager.go: the builds of container images. Below: the rows that a build reads and
-- writes with the commands that it runs (Records), the checked packages and the Dockerfile
-- (Dockerfile), publishing to a registry (Publish), the artifacts of a build (Attempts), a
-- build from its first check to its last write
-- (Build), and the queue of builds (Jobs).
pub mod Records
pub mod Dockerfile
pub mod Publish
pub mod Attempts
pub mod Build
pub mod Jobs
mod Tests
