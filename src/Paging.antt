-- ===== src/Paging.antt =====
-- Queries that are answered page by page: `findAll` and `searchProjects` of the projects, `findAll` of
-- the listings and of the retirements, and the projects of the public API.
pub mod Client
pub mod Service
pub mod Walk
pub mod PublicApi
pub mod Filters
