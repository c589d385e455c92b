-- ===== src/Filter.antt =====
-- paf/filter.py, the language of filters: its syntax, how a filter is printed, parsed and matched.
pub mod Syntax
pub mod Match
pub mod Fatal
pub mod Print
pub mod Parse
pub mod Fuel
