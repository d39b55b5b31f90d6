-- ===== src/Odometry.antt =====
-- include/ct_icp/odometry.h and src/ct_icp/odometry.cpp: the pipeline that registers frames.
pub mod Options
pub mod Kit
pub mod State
pub mod Attempt
pub mod Assess
pub mod Motion
pub mod Register
pub mod Robust
pub mod Insert
pub mod Pipeline
pub mod Registration
pub mod Levels
pub mod Stamps
pub mod Instants
pub mod Attempts
pub mod Verdict
pub mod Policy
pub mod Prediction
pub mod Invariant
pub mod Frames
