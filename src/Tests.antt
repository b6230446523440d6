-- ===== src/Tests.antt =====
-- Runs of the definitions on concrete inputs, and the theorems applied there.
mod Inputs
mod Undo
mod Image
mod Parts
mod Small
mod Nvm
mod Hybrid
mod Lmc
