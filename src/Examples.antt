-- ===== src/Examples.antt =====
-- Concrete inputs at which the theorems of the other modules are applied, and tests.
mod Catalog
mod Texts
mod Copies
mod Digests
mod Archives
mod Console
mod Clients
