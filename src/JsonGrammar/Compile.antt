-- ===== src/JsonGrammar/Compile.antt =====
-- core/json_grammar.cpp: `configure` and `compile`, from the text of a schema to its nodes. Builder
-- has the nodes under construction, Order the sorting of texts, Object the schemas of objects,
-- Schema `compile`, Configure `configure`.
pub mod Builder
pub mod Order
pub mod Sorted
pub mod Object
pub mod Schema
pub mod Configure
pub mod Built
pub mod Plain
pub mod Shaped
pub mod Referred
pub mod Members
pub mod Typed
pub mod Formed
pub mod Ranked
mod Tests
