-- ===== src/Form/Definition.antt =====
-- crates/schemaform/src/engine.rs: what a compiled form definition holds for the form's state.
-- `P` is the type of JSON pointers.
use schemaform.Prelude.{ℕ, Bool, true, false, ◌&&◌, Option, List, [], ◌∷◌}
use schemaform.Json.{Text, Value}

pub record CompiledChoice : Type 0 where
  pub value : Value
  pub title : Option Text
  pub description : Option Text

pub record SchemaLocationDefinition (P : Type 0) : Type 0 where
  pub resource : Text
  pub pointer : P

pub record DataSchemaAnnotations : Type 0 where
  pub formats : List Text
  pub defaults : List Value
  pub deprecated : Bool
  pub read_only : Bool
  pub write_only : Bool
  pub examples : List Value
  pub content_encodings : List Text
  pub content_media_types : List Text
  pub content_schemas : List Value

pub record NodePresentation : Type 0 where
  pub label : Text
  pub help : Option Text
  pub annotations : DataSchemaAnnotations

pub data ControlKind : Type 0 where
  string number integer boolean choice constant null : ControlKind

pub record ControlDefinition (P : Type 0) : Type 0 where
  pub binding : P
  pub parent_binding : Option P
  pub kind : ControlKind
  pub choices : List CompiledChoice
  pub accepts_null : Bool
  pub schema_locations : List (SchemaLocationDefinition P)
  pub presentation : NodePresentation
  pub creation_seed : Option Value
  pub required : Bool

pub record ObjectDefinition (P : Type 0) : Type 0 where
  pub binding : P
  pub parent_binding : Option P
  pub schema_locations : List (SchemaLocationDefinition P)
  pub presentation : NodePresentation
  pub required : Bool
  pub creation_seed : Value

pub record ArrayItemTemplate (P : Type 0) : Type 0 where
  pub controls : List (ControlDefinition P)
  pub objects : List (ObjectDefinition P)
  pub creation_seed : Value

pub record ArrayDefinition (P : Type 0) : Type 0 where
  pub binding : P
  pub parent_binding : Option P
  pub schema_locations : List (SchemaLocationDefinition P)
  pub presentation : NodePresentation
  pub required : Bool
  pub creation_seed : Value
  pub min_items : Option ℕ
  pub max_items : Option ℕ
  pub unique_items : Bool
  pub item_template : ArrayItemTemplate P

abbrev is_choice : ControlKind → Bool
is_choice ControlKind.choice = true
is_choice _ = false

module _ {P : Type 0} where
  abbrev no_objects : List (ObjectDefinition P) → Bool
  no_objects [] = true
  no_objects (o ∷ os) = false

  -- `matches!(controls, [item] if item.kind == ControlKind::Choice)`
  abbrev one_choice : List (ControlDefinition P) → Bool
  one_choice (item ∷ []) = is_choice item.kind
  one_choice _ = false

  unfoldable pub is_multiple_choice : ArrayDefinition P → Bool
  is_multiple_choice a =
      a.unique_items && no_objects a.item_template.objects && one_choice a.item_template.controls

  abbrev first_choices : Bool → List (ControlDefinition P) → List CompiledChoice
  first_choices true (item ∷ _) = item.choices
  first_choices _ _ = []

  unfoldable pub choices : ArrayDefinition P → List CompiledChoice
  unfolding is_multiple_choice
  choices a = first_choices (is_multiple_choice a) a.item_template.controls

-- `FormDefinition`: the controls and the arrays below its root, and its fingerprint.
pub record FormDefinition (P : Type 0) : Type 0 where
  pub controls : List (ControlDefinition P)
  pub arrays : List (ArrayDefinition P)
  pub fingerprint : Text
