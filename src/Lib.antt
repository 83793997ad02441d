-- ===== src/Lib.antt =====
-- Verification of the reference resolver of the versification tool (`frvt/resolver`) and of the
-- derivation of its mapping rows (`frvt/ingest`), with five parts of `frvt/api`: the choice of schemes,
-- the registry of divergence reports, the indexes of mappings, the limiter of failed logins and the
-- jump menu between two translations.
--
-- The resolver translates a Bible reference from one versification scheme to another. A scheme
-- stores mapping rows, which relate ranges of its verses to ranges of the numbering that it is
-- based on. A hop is one scheme's list of rows. A verse climbs the hops of the source scheme to a
-- shared numbering, the pivots, and descends the hops of the target scheme, which are read
-- backwards. Where rows split or merge, the verses that are linked in this way form a hull.
--
-- The files and the code:
--   Prelude            the shared names: lists, equality, order, sorting, texts, decimal numbers
--   Resolver/Types     frvt/resolver/types.py and the relations of frvt/api/models/__init__.py
--   Resolver/Reference frvt/resolver/parse_ref.py, `strip_part_suffix` of frvt/ingest/normalize.py
--   Resolver/Compose   frvt/resolver/compose.py
--   Resolver/Cover     frvt/resolver/cover.py
--   Resolver/Walk      frvt/resolver/walk.py
--   Resolver/Chains    frvt/resolver/chains.py
--   Resolver/Hull      the worklist of `build_hull` of frvt/resolver/resolve.py
--   Resolver/Connect   the result of `build_hull`
--   Resolver/RangeHull frvt/resolver/range_hull.py
--   Resolver/Assemble  frvt/resolver/normalize.py, the rest of frvt/resolver/resolve.py
--   Resolver/Tests     runs on sample rows
--   Ingest/Mappings    frvt/ingest/derive_mappings.py
--   Ingest/Tests       runs on a sample ingredient
--   Api/Schemes        frvt/api/scheme_select.py
--   Api/Registry       frvt/api/divergence/registry.py, on rows of frvt/api/models/divergence.py
--   Api/Indexing       frvt/api/indexing: in Rows the tables, in Registry, Invalidation, Worker and
--                      Builder the modules of these names; keys.py stands in Builder. Steps makes them
--                      one transition system, which the other files prove things of
--   Api/Limiter        frvt/api/failed_auth_limiter.py
--   Api/Jump           frvt/api/jump_cancel.py, and in Content frvt/api/jump_target_content.py
--   Api/Navigation     frvt/api/routers/navigation.py: the rows of the jump menu
--   Api/Tests          runs on sample tables
-- A component's file holds the definitions, under the names of the Python functions; the files
-- of its folder hold the proofs.
--
-- How Python is read:
-- - A string is the list of its code points. Chapters, verses, ordinals and ids are natural numbers,
--   unbounded as in Python; query parameters are integers. `int` is read without its limit of 4300 digits.
-- - The regular expressions are matchers written out; the grammar that they accept is described
--   apart from them, in Resolver/Reference/Grammar.
-- - What a function raises is a value of `Result`; a failed `assert` is one too.
-- - A set is a list. Where the program reads a set in an order of Python's own, the order is the
--   parameter `arrange`; where it sorts a set, the list is without repeats.
-- - A keyword argument `upward` is a Boolean argument.
-- - Logging and the cache of `parse_ref` have no effect on results and are left out.
-- - The database is a `Session`, or a `Database`: the queries that the code sends are its fields, as
--   functions. What they return is any value.
--
-- An index is built from mappings that the resolver gives for the references of a translation. Requests
-- create, change and delete indexes while the worker builds one or cleans up; a step is one transaction
-- of either, at one moment. The worker's lock, which the database holds, is the order of its steps; what
-- a process does at its start is without the lock. The deletion of a translation may take a scheme with
-- it, and the database then deletes the indexes of the scheme.
--
-- A jump menu is what two filters leave of the differences of two schemes, with the rows that the
-- other direction adds. The filters share the caches of one request and a cache of the process; each
-- function takes them and returns them. A cache is truthful when it holds what the functions without
-- caches return.
--
-- Loops are structural recursion, but for four. A chain of schemes takes fuel for each scheme, and
-- more fuel than there are schemes is enough, since a scheme that recurs raises. The worklist of the
-- hull takes fuel for one node at a time. Fuel is enough when it counts the members and, for each node
-- that can be met, one more than the nodes that it appends: a node appends its neighbours only when it
-- is first met. `Resolver/Hull/Universe` lists the nodes that can be met, from the ranges and parts of
-- the rows.
--
-- The eviction of the limiter takes fuel for each address that it holds, since a round deletes one, and
-- the loop that clears the mappings of an index takes fuel for each mapping.
--
-- Not modelled: the database queries and threads of frvt/api, its routers but for the rows of the jump
-- menu, the reads of an index, the parsing and validation of files, the computation of divergence
-- reports, migrations, fixtures and the web client. They are input, output, other libraries' work, or
-- still to come.
pub mod Prelude
pub mod Resolver
pub mod Ingest
pub mod Api
