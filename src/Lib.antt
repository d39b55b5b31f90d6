-- ===== src/Lib.antt =====
-- The verification library of ct_icp: a LiDAR odometry that registers frames of points one after the
-- other, against a map of the frames before.
--
-- The parts of the program and the files that model them:
--   * Common: the shared names, lists and tests over the native numbers; `ℤ` for the program's `int`;
--     `Outcome` for code that a CHECK or an exception can stop, with the place of the check;
--     the interface `Double` of the operations on doubles. No law of arithmetic on doubles is assumed;
--     a theorem that needs their order takes `IsOrdered`, which holds where there is no NaN.
--   * Geometry: `Voxel`, `SE3` and `WPoint3D` (include/SlamCore/types.h, src/SlamCore/types.cxx), over
--     interfaces for the vectors and quaternions of Eigen.
--   * Grid: the hash maps keyed by voxels, as association lists. An order of traversal is an argument.
--   * Pose: `TPose` (include/SlamCore/types.h) and `TrajectoryFrame` (include/ct_icp/types.h).
--   * Sampling: `sub_sample_frame` and `grid_sampling` (src/ct_icp/ct_icp.cpp), `SamplePointsInGrid`
--     (include/SlamCore/algorithm/grid_sampling.h), `AdaptiveSamplePointsInGrid`
--     (include/ct_icp/algorithm/sampling.h).
--   * VoxelMap: `MultipleResolutionVoxelMap` (include/ct_icp/map.h), its insertions in VoxelMap/Cloud,
--     the radius search in VoxelMap/Search, and its points as lists in VoxelMap/Export. The poses of a
--     cloud pass through `LinearContinuousTrajectory::Create`, and the map keeps the translation of the
--     first of them, to orient normals.
--   * Odometry: src/ct_icp/odometry.cpp and include/ct_icp/odometry.h. Options, State and Attempt are its
--     records; Motion is `InitializeMotion`; Register is `InitializeFrame` and `TryRegister`;
--     Robust is `RobustRegistration`; Assess is `AssessRegistration`; Insert is `UpdateMap`; Pipeline is
--     `DoRegister`; Registration has the functions that register a frame.
--   * Registration: `CT_ICP_Registration` (src/ct_icp/ct_icp.cpp, include/ct_icp/ct_icp.h). Builder is
--     `ICPOptimizationBuilder`; CeresSolver, RobustSolver and GaussNewton are `DoRegisterCeres`,
--     `DoRegisterRobust` and `DoRegisterGaussNewton`, with their loop in Rounds and the equations of the
--     last in NormalEquations; Neighborhood is `TNeighborhood`
--     (include/SlamCore/experimental/neighborhood.h).
--   * MotionModel: `PreviousFrameMotionModel` and `PredictionConsistencyModel`
--     (include/ct_icp/motion_model.h, src/ct_icp/motion_model.cpp).
--   * Queue: `blocking_queue` (include/SlamCore/concurrent/blocking_queue.h). Its mutex makes each
--     operation one step, so that threads are sequences of steps.
--   * Trajectory: `LinearContinuousTrajectory` (include/SlamCore/trajectory.h, src/SlamCore/trajectory.cxx),
--     with the sort and the binary search of the standard library as parameters.
--   * Buffers: the data layer of SlamCore (include/SlamCore/data, src/SlamCore/data). Schema is the
--     layout of items, elements and properties; Buffer has the vector, array and wrapping buffers, Copies
--     their copies of vectors; Collection and Select are `BufferCollection`, Views its typed views. A byte
--     is a number, and an access outside of the bytes, which C++ leaves undefined, fails. So does
--     the use of the pointer `parent` of an element after `RemoveElementFromSchema`, which leaves it
--     dangling: a buffer has a field that says whether the pointers hold.
--   * Datasets: sequences of frames and datasets (include/ct_icp/dataset.h, src/ct_icp/dataset.cpp). Files
--     is `AFileSequence`, Synthetic is `SyntheticSequence`, Catalog is `Dataset`. Reading a file is an
--     argument.
--   * Tests: the buffers, the datasets, the odometry, the solvers, the maps and their searches, the queue
--     and a trajectory at concrete inputs.
--
-- How they interact: Odometry takes a kit (Odometry/Kit), a record with the map, the neighborhood strategy,
-- the registration, the motion model, the standard library's shuffle and the callbacks. The state is
-- passed explicitly, and every function returns it. A function of the source with the name `DoRegister`
-- is called `do_register` here. Registration takes Ceres, the decompositions of Eigen, the functions of
-- <cmath> and the search of neighbors as arguments (Registration/Tools, LinearAlgebra in
-- Registration/GaussNewton), and the motion model by its two implementations. Its parallel loops write to
-- places that no two points share, and run in the order of the points here. In a kit the registration is
-- any function; Registration/Stamps makes a kit with this one.
--
-- Fuel: the loops without a bound in the text run on fuel. `SetRobustLevel` takes the level that is
-- asked for, since each round is one level. `RobustRegistration` takes one more than the number of
-- attempts, since each round counts one; a run out of fuel is `none`. The loops of the radius search
-- count in a `short`: they run for at most 65537 rounds, since a loop that goes on after the 65536 values
-- of a `short` goes on for ever; it is `none`.
--
-- Not modelled: logs, durations and logged values; the residuals that the cost functors compute
-- (include/ct_icp/cost_functions.h) and their minimization; the neighborhood strategies; the conversion of a cloud's raw points
-- in `InsertPointCloud` (a cloud comes with its world points and instants) and the refusal of a negative
-- `max_num_points` by `reserve` in `InsertPointInVoxelMap`; the builders of
-- schemas for matrices and arrays, the iterators and scalar conversions of views; the point cloud of
-- SlamCore; reading and writing files, configuration, windows and bindings. Numbers of frames, of attempts and
-- of points, frame ids and the sizes of buffers do not overflow: they are natural numbers, and the
-- offsets of a schema are integers.
pub mod Common
pub mod Buffers
pub mod Geometry
pub mod Grid
pub mod Pose
pub mod Sampling
pub mod VoxelMap
pub mod Odometry
pub mod Registration
pub mod MotionModel
pub mod Queue
pub mod Trajectory
pub mod Datasets
pub mod Tests
