-- ===== src/Es10b.antt =====
-- app/es10/es10b.py: profile download and notifications.
-- Engine: what the handler calls. Info: the queries. Authenticate, Prepare, Load: the download.
-- Notifications: cancellation and the queue. The other modules hold what the operations do.
pub mod Engine
pub mod Handler
pub mod Info
pub mod Authenticate
pub mod Prepare
pub mod Load
pub mod Notifications
pub mod Sessions
pub mod Frame
pub mod Authenticated
pub mod Responds
pub mod Prepared
pub mod Installs
pub mod Completes
pub mod Opens
pub mod Queue
