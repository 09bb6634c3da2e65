-- ===== src/Examples/Forms.antt =====
-- A small form: a text control at "/n" and an array of texts at "/x", with two items.
use schemaform.Form.State.{ExternalFinding}
use schemaform.Prelude.{ℕ, refl, false, true, none, some, List, [], ◌∷◌, arith}
use schemaform.Prelude.Int.{pos}
use schemaform.Json.{
  Text, text_eq, Value, string, object, member, end, array, cons, nil, get, to_list, as_array,
}
use schemaform.Pointer.Walk.{walk, child}
use schemaform.Form.Definition.{
  NodePresentation, ControlKind, ControlDefinition, ArrayDefinition, FormDefinition,
}
use schemaform.Form.State.{Form, ControlState, ArrayItemState}
use schemaform.Form.Parsing.{Parsers}
use schemaform.Form.Arrays.Invariant.{IsArranged}
use schemaform.Examples.Pointers.{token_pointers}

abbrev pub P : Type 0
P = List Text

abbrev plain : NodePresentation
plain = record {
  label = [];
  help = none;
  annotations = record {
    formats = [];
    defaults = [];
    deprecated = false;
    read_only = false;
    write_only = false;
    examples = [];
    content_encodings = [];
    content_media_types = [];
    content_schemas = [];
  };
}

abbrev text_control : P → ControlDefinition P
text_control binding = record {
  binding = binding;
  parent_binding = none;
  kind = ControlKind.string;
  choices = [];
  accepts_null = false;
  schema_locations = [];
  presentation = plain;
  creation_seed = none;
  required = false;
}

abbrev pub texts_binding : P
texts_binding = (b'x' ∷ []) ∷ []

abbrev pub name_binding : P
name_binding = (b'n' ∷ []) ∷ []

abbrev pub texts : ArrayDefinition P
texts = record {
  binding = texts_binding;
  parent_binding = none;
  schema_locations = [];
  presentation = plain;
  required = true;
  creation_seed = array nil;
  min_items = none;
  max_items = some 3;
  unique_items = false;
  item_template = record {
    controls = text_control [] ∷ [];
    objects = [];
    creation_seed = string [];
  };
}

abbrev pub untouched : ControlDefinition P → ControlState P
untouched d = record { definition = d; edit_buffer = none; parse_blocker = none; touched = false }

abbrev pub item : ℕ → ArrayItemState P
item identity = record { identity = identity; controls = untouched (text_control []) ∷ [] }

abbrev pub two_texts : Value
two_texts = object (
    member (b'n' ∷ []) (string (b'A' ∷ []))
      (member (b'x' ∷ []) (array (cons (string (b'a' ∷ [])) (cons (string (b'b' ∷ [])) nil))) end))

abbrev pub definition : FormDefinition P
definition = record {
  controls = text_control name_binding ∷ [];
  arrays = texts ∷ [];
  fingerprint = [];
}

abbrev pub two : Form P
two = record {
  controls = untouched (text_control name_binding) ∷ [];
  arrays = record { definition = texts; items = item 1 ∷ item 2 ∷ []; touched = false } ∷ [];
  next_item_identity = 3;
  baseline_array_identities = (1 ∷ 2 ∷ []) ∷ [];
  definition_fingerprint = [];
  baseline = two_texts;
  form_data = two_texts;
  external_finding_batches = [];
  submission_attempted = false;
  data_revision = 0;
  state_revision = 0;
}

-- Parsers that read no number.
abbrev pub parsers : Parsers
parsers = record { from_str = λ s. none; parse_big_int = λ s. some (pos 0) }

abbrev pub texts_text : Text
texts_text = b'/' ∷ b'x' ∷ []

pub two-IsArranged : IsArranged token_pointers two
unfolding walk child get text_eq as_array to_list
two-IsArranged = record {
  flat = (tt, tt);
  aligned = (refl, tt);
  unique = λ x. ground arith;
  unused = λ x h. ground arith;
}

abbrev pub name_text : Text
name_text = b'/' ∷ b'n' ∷ []

-- `two_texts` with the name changed to "B", and with the name taken out.
abbrev pub renamed : Value
renamed = object (
    member (b'n' ∷ []) (string (b'B' ∷ []))
      (member (b'x' ∷ []) (array (cons (string (b'a' ∷ [])) (cons (string (b'b' ∷ [])) nil))) end))

abbrev pub nameless : Value
nameless =
    object
      (member (b'x' ∷ []) (array (cons (string (b'a' ∷ [])) (cons (string (b'b' ∷ [])) nil))) end)

-- `two` with another name, one item gone and a control left.
abbrev pub touched_up : Form P
touched_up = record two {
  controls = record (untouched (text_control name_binding)) { touched = true } ∷ [];
  arrays = record { definition = texts; items = item 2 ∷ []; touched = false } ∷ [];
  form_data = renamed;
}

-- A finding on the name.
abbrev pub taken : ExternalFinding P
taken = record { instance_pointer = name_binding; code = b't' ∷ []; blocking = true }

-- A multiple choice of "a" and "b" at "/x", in which "a" is chosen.
abbrev picks : ArrayDefinition P
picks = record texts {
  unique_items = true;
  item_template = record {
    controls =
        record (text_control []) {
          kind = ControlKind.choice;
          choices =
              record { value = string (b'a' ∷ []); title = none; description = none }
              ∷ record { value = string (b'b' ∷ []); title = none; description = none }
              ∷ [];
        }
        ∷ [];
    objects = [];
    creation_seed = string [];
  };
}

abbrev pub one_pick : Form P
one_pick = record two {
  arrays = record { definition = picks; items = item 1 ∷ []; touched = false } ∷ [];
  form_data = object (member (b'x' ∷ []) (array (cons (string (b'a' ∷ [])) nil)) end);
}

pub one_pick-IsArranged : IsArranged token_pointers one_pick
unfolding walk child get text_eq as_array to_list
one_pick-IsArranged = record {
  flat = (tt, tt);
  aligned = (refl, tt);
  unique = λ x. ground arith;
  unused = λ x h. ground arith;
}
