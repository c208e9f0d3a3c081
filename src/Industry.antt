-- ===== src/Industry.antt =====
-- The resources and jobs that the planner combines: libs/industry_resources, libs/skills and libs/market_data.
pub mod Resource
pub mod Job
pub mod Stuff
pub mod Skills
pub mod Filters
pub mod Recipes
pub mod Values
pub mod Products
pub mod Copies
pub mod Inventions
pub mod Market
mod Tests
pub mod Schematics
