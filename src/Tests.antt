-- ===== src/Tests.antt =====
-- Runs of the model: each theorem at a concrete input.
mod Sort
mod Jobs
mod Blobs
mod Plans
mod Runs
mod Loop
mod Handles
mod Copies
mod Closing
mod Submitted
mod Images
mod Outputs
