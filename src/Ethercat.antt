-- ===== src/Ethercat.antt =====
-- The EtherCAT part: src/Ethercat_setting.cpp.
pub mod Clock
pub mod Pdo
pub mod Check
pub mod Cycle
pub mod Start
pub mod Report
