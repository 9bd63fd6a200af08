-- ===== src/Storage.antt =====
-- Where profiles are kept: src/local_dict.cc, src/story_profile_storage.cc and
-- src/user_profile_storage.cc.
pub mod LocalDict
pub mod StoryProfileStorage
pub mod UserProfileStorage
mod Tests
