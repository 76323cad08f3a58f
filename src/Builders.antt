-- ===== src/Builders.antt =====
-- orm/column.go, orm/aggregate.go and the builders of orm/selector.go, orm/updater.go,
-- orm/deleter.go and orm/inserter.go: the text of a statement, as pieces, with its arguments. A
-- panic is none. The index is the model's. Columns of another model, FromTable with a struct, are
-- left out, and so are From, joins and subqueries.
pub mod Names
pub mod Columns
pub mod Calls
pub mod Plain
pub mod Numbered
pub mod Shared
pub mod Rows
pub mod Upsert
pub mod Tests
