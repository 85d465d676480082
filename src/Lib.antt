-- ===== src/Lib.antt =====
-- Checked models of the Python scripts of the manuals repository.
--
-- scripts/check-rfd-numbers.py checks that the number of an RFD agrees wherever it is written.
-- scripts/decision-meta.py is a panflute filter that adds the metadata line, the breadcrumb and the
-- list of related pages to a page of the site. data/measurements/build.py writes tables of
-- measurements to Parquet files. The scripts share no state: the filter follows the
-- links between pages that the check keeps from breaking, and it swallows its own errors.
--
-- Common passes on the names of the libraries and has what every part needs: Boolean tests, lists on
-- the native numbers, Python's `str` as a list of code points (Text), `dict` (Dict) and `sorted`
-- (Sorting). Regex is Python's `re` as far as the scripts use it: patterns as lists of items and the
-- backtracking matcher (match_at), `match`, `search` and `findall`; Regex/Sound and Regex/Hits
-- say what it accepts without a search. PosixPath has the functions of os.path and posixpath, and
-- its children what they do to paths that are lists of names.
--
-- RfdCheck is scripts/check-rfd-numbers.py:
--   Patterns   the patterns (DIR_RE is dir_re, and so on); its children say what each one finds
--   FileTree   the tree of files, isdir, exists, listdir, walk and open; an exception is a value
--   Numbers    the first loop of `check`, one round (check_number) and the loop (check_dirs) with
--              the dictionary `seen` passed along
--   Citations  the walk for old citations (citation_problems)
--   Links      the walk under rfd/ for links to missing folders (link_problems)
--   Aliases    the rows of ALIASES.md (alias_problems)
--   Check      `check`, which runs the four in order; Check/Iff has the rule itself, `Conforms`
--   SelfTest   `self_test` and its `build`
--   Run        the arguments of the calls of `print` and how a run ends
--   Main       the command line, the lines printed and the exit status
-- The problems are the script's messages, in its order.
--
-- PageMeta is scripts/decision-meta.py:
--   Patterns, Paths, Titles  the patterns, `_strip_ext`, `_key`, `_resolve`, `_parse_frontmatter`
--                            and `_parse_title`
--   Graph      `_project_root` and `_scan`; a set is a list without repetition
--   Related    the current page and its related pages, from `finalize`
--   Document   `_status_inlines`, `_breadcrumb` and `finalize`; its children follow the links that
--              these write
--
-- Measurements is data/measurements/build.py:
--   Schema     values, rows and declarations of tables; Data and its children are the six tables
--   Duckdb     the database and the calls of `os` as interfaces, with what is documented of the
--              statements of the script, which declare six tables (Data.schemas)
--   Build      the script: load, verify and write, on a connection, the disk and the lines printed
--   Sound      the tables themselves
--
-- Parameters: Python's tables of Unicode characters (Unicode; what is relied on is HasLetters),
-- `os.getcwd()`, `__file__`, the temporary directory of `self_test`, what `glob.glob` finds with the
-- order of the set of paths, the constructors of panflute (Panflute), the calls of `os` in build.py
-- (System) and the database (Duckdb, with the laws IsDuckdb of both). The laws ask that a row has a
-- value for each column that the column can hold, that a table has a row, and for the files that
-- the folder is ready: the system and the database take its name for one folder, and the six files
-- can be written there, are no links to one another, and have room.
--
-- There is no fuel in the scripts: the walks are recursive in the tree, the loops in their lists, and
-- the matcher in the pattern and the text. The decimal digits of a number are on fuel, one more than
-- the number (Common/Decimal).
--
-- Not modelled: symbolic links and a tree that changes while it is read. A
-- directory cannot fail to be listed. `main` of the filter hands `finalize` to panflute. The layout of
-- the lines that build.py prints is left out.
-- scripts/create_changelog_entry.exs and scripts/check_tropes.sh are glue around files and processes;
-- rfd/ holds documents and the sample programs that belong to them; the rest is configuration.
pub mod Common
pub mod Regex
pub mod PosixPath
pub mod RfdCheck
pub mod PageMeta
pub mod Measurements
