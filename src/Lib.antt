-- ===== src/Lib.antt =====
-- The engine of schemaform: the form that an application edits.
--
-- A compiled definition says which controls, objects and arrays a form has. A form holds the JSON
-- data that is edited, the baseline it is compared with, for each control the text under edit and
-- why it was not understood, for each array an identity per item, the findings that other sources
-- report, and two revisions, one of the data and one of the state. Beside the engine stand the
-- checks that keep its inputs within limits, the order and the selection of what a validator finds,
-- and the decoding of the references between schemas. A definition has the name of the function or
-- type it models; the form is in crates/schemaform/src/engine.rs, where no other file is named.
--
--   Prelude          names of the libraries, lists, integers, results and sorting
--   Json             `serde_json::Value`: objects are lists of members in the order of their keys, as
--                    a `BTreeMap` keeps them; numbers are their texts (arbitrary precision)
--   Pointer          what the engine uses of the crate `jsonptr`, a record of operations and laws;
--                    Pointer/Bound: `set_bound_value`, `take_bound_value`; Pointer/Tokens: texts of
--                    pointers, written and read
--   Number           the normal form of a number's text, integers written out up to a limit
--   Limits           crates/schemaform/src/limits.rs: `check_input_value` and `value_metrics`, two
--                    loops over a value with a stack of their own; Limits/Walk is that loop;
--                    Limits/Source: `source_metrics`, the tokens of an unparsed text;
--                    Limits/Compilation: the checks of a compilation that read only metrics
--   Validation       crates/schemaform/src/validation.rs: Validation/Cardinality has the exact bounds
--                    of `minItems` and `maxItems`, Validation/Findings which of the validator's errors
--                    `validate_with_limits` reports, with the record of finding.rs
--   Resources        crates/schemaform/src/resources.rs: `decode_uri_fragment`,
--                    `pointer_contains`, `relative_pointer`
--   Form/Definition  the compiled definition
--   Form/State       `Form`, its controls, arrays and items, the errors, and the monad of a method
--                    that changes `self`, fails with an error or panics
--   Form/Create      `create_form` and the identities it gives out
--   Form/Lookup      the control at a binding
--   Form/Arrays      items appended, inserted, removed and moved
--   Form/Toggles     a choice toggled in a multiple choice
--   Form/Parsing     texts to values, and which values a control takes
--   Form/Edits       `edit_text`, `set_value`; Form/Edits/Accepted and Form/Edits/Readings describe
--                    which values a control takes and what its texts are read as
--   Form/Structure   objects and arrays created, replaced and removed as a whole
--   Form/Findings    `apply_external_findings`
--   Form/Lifecycle   `reset`, `reinitialize`, `blur`
--   Form/Host        `apply_host_transaction`, `replace_form_data`
--   Form/Submission  `prepare_submission`
--   Form/Sessions    calls on a form one after the other, as a step relation
--   Form/Views       what a form tells of its controls, arrays and data
--   Examples         pointers as lists of tokens, one small form, a writing of values, and the
--                    theorems at concrete inputs
--
-- A text is the list of its UTF-8 bytes. `u64` counters wrap at 2 ^ 64, as in a release build, and
-- theorems that need an identity that was not used say that one is left. A `usize` has 64 bits.
-- White space that `trim` takes off is the ASCII kind. `serde_json::from_str` and the parser of
-- `BigInt` are parameters, and so are the errors that the validator yields. Loops are recursion on
-- the lists they run over, but two of the limits: the walk over a value has as many rounds as
-- `rounds` counts, one per value and per child and one more per collection, which is shown to be
-- enough, and the scan of a text has a round per byte and one to stop, of which it takes at most
-- that many on the text of a value.
--
-- Not modelled: the compiler from schemas to definitions, the hash that is the fingerprint of a
-- definition (a text here), the printing of errors, `source_value_metrics`, `graph_metrics` and
-- the metrics of serialized inputs in limits.rs, the graph of schema resources, the translation
-- of a validator's errors, the public API of the crate in its other files, and the other crates.
pub mod Prelude
pub mod Json
pub mod Pointer
pub mod Number
pub mod Limits
pub mod Validation
pub mod Resources
pub mod Form
pub mod Examples
