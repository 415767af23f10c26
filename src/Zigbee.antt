-- ===== src/Zigbee.antt =====
-- src/zigbee/: the reporting policy, the attributes, and joining and leaving.
pub mod Reporting
pub mod Clusters
pub mod Manager
