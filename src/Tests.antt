-- ===== src/Tests.antt =====
-- Concrete inputs and what the theorems say of them.
mod Inputs
mod Watching
mod Working
mod Spending
mod Delivering
mod Dispatching
