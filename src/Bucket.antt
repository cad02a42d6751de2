-- ===== src/Bucket.antt =====
-- platform-mvp/bucket-binding-controller: hub bucket requests become claims on the cluster that
-- serves their region.
pub mod Domain
pub mod Adapter
pub mod Config
pub mod Controller
pub mod Main
pub mod StatusController
pub mod Calls
