-- ===== src/Tests.antt =====
-- Runs of the models on small inputs, and the theorems applied at such inputs.
mod Tables
mod Pages
mod Residue
mod Files
mod Iteration
mod Pool
mod Disk
mod Calls
mod Bytes
mod Full
mod Block
