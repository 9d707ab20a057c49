-- ===== src/Config.antt =====
-- pkg/apis/config: the arguments of the plugins, their internal and their v1beta1 form, and the
-- conversions between them.
pub mod Internal
pub mod V1beta1
pub mod Conversion
