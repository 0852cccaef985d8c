-- ===== src/Interfaces.antt =====
-- The HTTP interface, src/interfaces/http.
pub mod Controllers
