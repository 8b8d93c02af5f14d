-- ===== src/Tests.antt =====
-- Runs of the modelled program, and an instance of each theorem that has conditions.
mod Sample
mod Collectors
mod Components
mod Texts
mod Requests
mod Web
mod Serving
mod Loadtest
