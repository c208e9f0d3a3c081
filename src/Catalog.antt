-- ===== src/Catalog.antt =====
-- What the program knows of the game's items before it plans: their kinds (`Types`), names (`Names`) and
-- groups (`Groups`), the player's skills (`Skills`) and possessions (`Assets`).
pub mod Types
pub mod Names
pub mod Groups
pub mod Assets
pub mod Tests
