-- ===== src/Lib.antt =====
-- A small SQL engine: INSERT and SELECT on tables that are text files, with a B+Tree in memory that
-- maps the ids of a table to the offsets of its rows.
--
-- The program's parts and the modules that model them:
--   src/main.c, src/cli.c        Program (Cli, Main): the arguments, the loop over the statements, the
--                                status that is returned, and the results in the order of printing.
--   src/lexer.c                  Sql (Lexer, TokenName): `tokenize_sql` and what it calls.
--   src/parser.c, include/ast.h  Sql (Ast, Parser): `parse_next_statement`, `parse_statement`.
--   src/executor.c               Executor (Insert, Select, Execute): `execute_statement`; the rows of an
--                                INSERT, and the two paths of a SELECT, by the id index and by a scan.
--   src/runtime.c                Runtime (Id, Index, Context): ids as texts, `build_id_index_for_table`,
--                                `get_or_load_table_runtime`.
--   src/schema.c                 Schema (Trim, Load): `load_table_schema`, `schema_find_column_index`.
--   src/storage.c                Storage (Field, Row, File, Table): escaping, rows as lines, the append,
--                                the scan and the read at an offset.
--   src/bptree.c                 Bptree (Node, Search, Insert, Validate): search, insertion with splits,
--                                `bptree_validate`.
--   src/result.c                 Program (Print): the bytes that `print_exec_result` writes.
--   src/benchmark.c, tools/benchmark_bptree.c
--                                Benchmark (Run, Cli): the benchmark and its command line.
-- The other modules of a directory hold its theorems: Bptree (IdMap, Invariant, Sorted, Leaf, Outcome,
-- Shape, Lookup, Content, Laws, HalfFull, Filled, Height, Checks, Valid), Storage (FieldLaws,
-- RowLaws, FileLaws, TableLaws, ScanLaws, CarriageReturn, Paths), Schema (Laws, LoadLaws, Written), Runtime
-- (IdLaws, Located, Built, NextId, Complete), Sql (Literals, LexerProgress, LexerLaws, Printed, Lexed, SqlText, ParserLaws,
-- ListProgress, ParserProgress, FromTokens, StatementValues, TokenBytes), Executor (Indexed, Answers, Loaded, SelectLaws, RowLaws, NextId,
-- InsertLaws, Session, Rectangular), Program (MainLaws, PrintWidths, PrintedLines, PrintLaws,
-- Script, ScriptLaws, Sessions, MainSession, Restart), Benchmark (Rows, Probes, Steps, Laws, Prepared, Succeeds, CliLaws); each Examples module runs the code on concrete inputs.
-- Database is what the parts promise together: Database.State has a database as lists of rows by the
-- names of the tables, the steps of a database, one for each result and each error of a statement, and
-- what it means that a context and a disk represent a database; its other modules relate the
-- statements of src/executor.c to the steps (Tables, Frame, Loading, BuiltTable, Lookup for the look-up of a table;
-- Selection for a SELECT; Kept, Values, Insertion, Change, Open, PlainInsert, NextId and
-- GeneratedInsert for an INSERT; Refinement for all of it; Progress for tables that nothing is wrong
-- with; Deterministic and Independent for what a database leaves open).
-- Prelude holds what all of them share.
--
-- How the parts interact: the main loop parses a statement and executes it in a context. The
-- executor looks the table up in the context, which loads its schema and builds its index from a
-- scan of its file at the first use. An INSERT appends a row to the file and puts the id with the
-- row's offset into the index; a SELECT with the condition `id = n` asks the index for the offset
-- and reads one row, any other scans the file. What the theorems on a table need of its index is
-- Bptree.IdMap, a record of operations and laws that the B+Tree fills. Executor.Indexed.IsIndexed
-- says what the table in memory and the file have to agree on for the two to answer alike.
--
-- Choices of the model:
--   - A string is the list of its bytes. A function that can fail returns a result with the cause, where
--     the source returns a status and a text. Arguments that are NULL, allocations that fail and errors
--     of the C library in the middle of a file are left out.
--   - Files and the SQL text hold no NUL byte. The source reads lines and the text as C strings, which
--     end at the first NUL, where the model keeps it.
--   - The disk maps paths to contents and says which paths `fopen` refuses; such a path is refused in
--     every mode, so a file that can be appended to but not read is left out. A stream is what is left of a
--     file with the position of its first byte.
--   - A node of the tree is a leaf with its entries or an internal node with its children and the keys
--     between them. The source climbs over parent pointers while nodes overflow; here the recursion that
--     walked down returns what has become of a node. The leaf chain is the order of the leaves. The
--     tests for a `key_count` that wraps round are left out, since no memory holds so many keys.
--   - Ids are 64-bit numbers: the parse of an id and the next id wrap as the source's do.
--   - A read behind the end of the values of a statement, which C leaves undefined, is the error
--     `reads_past_values`, which no value of the source stands for.
--   - `ctx` and the disk are passed on explicitly, also where a statement fails; a pointer into the
--     context's tables is a position in their list.
--   - Loops over the bytes of a file or a text run on fuel, one more than the number of bytes, and each
--     round takes at least one byte. The loop of the statements runs on one more than the number of
--     tokens, and each statement takes at least one token.
--
-- Not modelled: the times that the benchmark measures, the release of memory, and the texts of the error messages.
pub mod Prelude
pub mod Bptree
pub mod Storage
pub mod Schema
pub mod Runtime
pub mod Sql
pub mod Executor
pub mod Database
pub mod Program
pub mod Benchmark
