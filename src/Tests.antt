-- ===== src/Tests.antt =====
-- Runs of the model on concrete inputs, and an instance of each theorem.
mod Graphs
mod Runtime
mod Policies
mod Statuses
mod Configs
mod Expressions
mod Variables
mod TryCatch
mod Transforms
mod Steps
mod Runs
mod GraphRuns
mod Loops
