-- ===== src/Lib.antt =====
-- NetGraphy keeps a network's inventory as a graph whose node types and edge types are defined in
-- YAML. This development models the parts that decide what a request may ask, what it compiles to,
-- and who hears of it. The files follow the packages:
--
--   Prelude: Booleans and tests on native numbers, lists, texts, white space and lines, decimal
--   numerals, dictionaries as association lists in order of insertion, and results that are a value
--   or an exception.
--   Value: the values of JSON and YAML, wherever the source says `Any`, with Python's order, equality
--   and truth of them.
--   Schema: packages/schema_engine. Schema.Models has the records of models.py that the server
--   reads. Schema.Registry is the registry of registry.py: `_register`, `_resolve_mixins`,
--   `_validate_references`, `load_from_directories` and the lookups. Schema.Formats has its patterns
--   for MAC addresses, emails and URLs, Schema.Properties `_check_type` and
--   `_validate_attribute_value`, Schema.Validation `validate_node_properties` and
--   `validate_edge_properties`. Schema.Migration is `diff_schemas` and `generate_migration_plan` of
--   validators/schema_validator.py.
--   Query: packages/query_engine. Query.Models is models.py. Query.Slug and Query.EdgeIndex are
--   `_slugify` and `_build_edge_index` of validator.py, Query.Paths its `_resolve_*` methods and
--   `_validate_operator`, Query.Validator its `validate` and `_validate_filter_group`,
--   Query.Listing what it lists for clients.
--   Query.Compiler is the state, the parameters and the single filters of compiler.py,
--   Query.Assembly its groups, clauses, `compile` and `compile_aggregate`. Query.Pipeline takes
--   validation and compilation together. Query.Sample, Query.Tests
--   and Query.Examples run both over a small schema. Query.Reports is report_models.py and the
--   `ReportCompiler` of report_compiler.py: Query.Reports.Columns its `_resolve_columns`,
--   Query.Reports.Available its `get_available_columns`, Query.Reports.Compiling the rest.
--   Query.Reports.Execution is the `ReportExecutor` of report_executor.py over the compiled reports.
--   Glob: `fnmatch.fnmatch` of Python's library on POSIX, by which permissions and event types are
--   matched.
--   Auth: packages/auth/rbac.py. Auth.Roles has the roles and `get_role_permissions`, Auth.Checker
--   the `PermissionChecker`.
--   Events: packages/events/bus.py. Events.Bus is `EventBus`, Events.Emitters its emit methods,
--   Events.Bus.Lifecycle the runs of its operations and of the callbacks of the NATS client.
--   Iac: packages/iac/compliance.py. Iac.Compliance has its data, Iac.Compliance.Sections and
--   Iac.Compliance.Lines the extraction and the comparison of configurations by lines,
--   Iac.Compliance.Json those of JSON, Iac.Compliance.Remediation `generate_remediation` and the
--   choice by the type of configuration, Iac.Compliance.Run `run_compliance`.
--
-- The parts meet in these places: the API validates a query against the registry by the edge index,
-- hands the resolved paths and the query to the compiler, which looks them up by their text, and
-- runs the result on the graph database; a report's filters take the same way. The edge index is built
-- from the loaded registry, by whose definitions the properties of a node or an edge are checked
-- before they are written. Before all that the API asks the permission checker; after a change
-- it publishes an event.
--
-- Errors are constructors with the data of their messages; a list of errors that the source appends
-- to is a list that the definition returns. The state of the compiler is passed on explicitly. Every
-- definition of the program recurs on its data; only the numerals of Prelude.Decimal are on fuel, the
-- number and one more, which is more than it has digits. Numbers are natural where the source checks or
-- implies it; floats are dyadic rationals, without infinities and NaN. A set of the source is a list,
-- as only membership is asked of it. What a run of the bus does is a list of effects, and the
-- answers of NATS, of handlers, the clock and the UUIDs are the record `Outside`, given anew for each
-- operation; handlers do not subscribe while the bus dispatches. What the checks of properties and
-- the compliance run take from elsewhere (patterns, the module ipaddress, JSON, difflib, Jinja, the
-- graph) are the records `Libraries` and `Graph`; a pattern that does not compile and a value that
-- JSON cannot write are not modelled.
--
-- Not modelled: logging and times; the listings of the registry for the client; the validation of
-- raw schema files; the query executor and its tools, the graph driver, ingestion, backups and
-- intended configurations, Git synchronisation, the generators, the assistant, the API's routers and
-- the web client.
pub mod Prelude
pub mod Value
pub mod Schema
pub mod Iac
pub mod Glob
pub mod Query
pub mod Auth
pub mod Events
