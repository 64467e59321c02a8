-- ===== src/Tests.antt =====
-- Tests of the definitions on concrete inputs, and the theorems at concrete inputs.
mod Balancer
mod Config
mod Http
mod Manager
mod Mesh
mod Node
