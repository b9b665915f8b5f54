-- ===== src/Composer.antt =====
-- gnes/composer/base.py: layers of components, and the routers that join them.
pub mod Layers
pub mod Rules
pub mod Wiring
pub mod Links
pub mod Joined
pub mod Routed
pub mod Gathered
pub mod Routers
pub mod Build
