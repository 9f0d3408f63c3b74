-- ===== src/Image.antt =====
-- Images by name and their recipes (src/ucloud_sandboxes_sdk/client.py: `ensure_images`,
-- `wait_for_images`, `image_index_names`, `register_image_recipes`).
pub mod Names
pub mod Ensure
pub mod Wait
pub mod Settled
pub mod Index
pub mod Pages
pub mod Recipes
pub mod Held
pub mod Registered
