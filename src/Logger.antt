-- ===== src/Logger.antt =====
-- The HDF5 logger: src/hdf5_logger.cpp. What the HDF5 library answers is an argument, and what the
-- code asks of it is the list of its calls, each with the answer.
pub mod Columns
pub mod Calls
pub mod Impl
pub mod File
pub mod Handle
