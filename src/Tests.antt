-- ===== src/Tests.antt =====
-- Concrete inputs, and the theorems at them.
mod Data
mod Queues
mod Controllers
mod Workspaces
mod Github
mod Tools
mod Suites
mod Commands
mod Archives
mod Backups
mod Launches
mod Systems
mod Installs
