-- ===== src/Jinja.antt =====
-- core/jinja.h and core/jinja.cpp (src/DesireeIA.LocaleEngine/src): `Value` as far as JSON goes, its
-- JSON writer, and `parse_json`. The templates and their interpreter are left out.
pub mod Values
pub mod Writer
pub mod Text
pub mod Parser
pub mod Fits
pub mod Ends
mod Tests
