-- ===== src/Store.antt =====
-- The database: the rows that api/prisma/schema.prisma declares, the state that holds them, and
-- transactions over that state. The children have the tables' operations and their lemmas.
pub mod Rows
pub mod Tx
pub mod Tables
pub mod World
