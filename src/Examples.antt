-- ===== src/Examples.antt =====
-- The theorems at concrete inputs: a /proc with two processes, two samples, and a few states.
mod Data
mod Readers
mod Processes
mod Tables
mod Interactive
mod Machine
mod Screens
mod Sampled
mod Keys
