-- ===== src/Handlers.antt =====
-- The two services: src/story_management_handler.cc and src/recomm_engine_handler.cc.
pub mod StoryManagement
pub mod Query
mod Tests
