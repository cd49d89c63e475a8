-- ===== src/Planner.antt =====
-- The deterministic planner: planner_models.py, planner_scoring.py, planner_placement.py and
-- planner.py under mac/secretary_service/src/secretary_service/.
pub mod Models
pub mod Scoring
pub mod Reservation
pub mod Fixed
pub mod Search
pub mod Flexible
pub mod Dependencies
pub mod Blocks
pub mod Projection
pub mod Day
pub mod Examples
