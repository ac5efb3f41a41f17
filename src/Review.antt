-- ===== src/Review.antt =====
-- packages/review: the gate on a review, the decision that follows it, and the repair rounds.
pub mod Decision
pub mod Gate
pub mod Repair
pub mod Progress
