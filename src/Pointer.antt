-- ===== src/Pointer.antt =====
-- JSON Pointers: what the engine relies on of the crate `jsonptr`, which is a parameter, and the
-- engine's own operations on a bound value (crates/schemaform/src/engine.rs: `set_bound_value`,
-- `take_bound_value`, `binding_parent_is_object`).
pub mod Tokens
pub mod Walk
pub mod Words
pub mod Paths
pub mod Frame
pub mod Bound
pub mod Laws
use Walk.{walk, store, is_prefix}
use Words.{escape, to_string}
use schemaform.Prelude.{ℕ, ◌≡◌, Option, none, some, List, [], ◌∷◌, ◌++◌, ◌⊎◌, Bool}
use mathlib.Core.Option
use schemaform.Json.{Text, Value}

-- `PointerBuf` and its operations. A pointer stands for its list of decoded tokens (RFC 6901).
pub record JsonPtr : Type 1 where
  pub PointerBuf : Type 0
  pub root : PointerBuf
  pub parse : Text → Option PointerBuf
  pub as_str : PointerBuf → Text
  pub tokens : PointerBuf → List Text
  -- the index of an array item that a token names
  pub to_index : Text → Option ℕ
  pub resolve : PointerBuf → Value → Option Value
  -- a mutable reference: the value that it points to, and the document after a value is stored
  pub resolve_mut : PointerBuf → Value → Option (Value × (Value → Value))
  -- the parent and the last token, decoded
  pub split_back : PointerBuf → Option (PointerBuf × Text)
  pub starts_with : PointerBuf → PointerBuf → Bool
  pub root_lem : tokens root ≡ []
  pub parse-as_str : (p : PointerBuf) → parse (as_str p) ≡ some p
  pub as_str-parse : (s : Text) (p : PointerBuf) → parse s ≡ some p → as_str p ≡ s
  pub to_index_injective : (s t : Text) (i : ℕ) → to_index s ≡ some i → to_index t ≡ some i → s ≡ t
  pub resolve_lem : (p : PointerBuf) (d : Value) → resolve p d ≡ walk to_index (tokens p) d
  pub resolve_mut_lem :
      (p : PointerBuf) (d : Value)
      → resolve_mut p d
        ≡ Option.map (λ v. (v, λ w. store to_index (tokens p) w d)) (walk to_index (tokens p) d)
  pub split_back_lem :
      (p : PointerBuf)
      → ((tokens p ≡ []) × (split_back p ≡ none))
        ⊎ ((q : PointerBuf) × (t : Text) × (split_back p ≡ some (q, t))
            × (tokens p ≡ tokens q ++ t ∷ []))
  pub starts_with_lem : (p q : PointerBuf) → starts_with p q ≡ is_prefix (tokens q) (tokens p)
  -- what the engine's own texts parse to: a pointer with one more token, and two joined pointers
  pub parse_push :
      (p : PointerBuf) (t : Text)
      → (q : PointerBuf) × (parse (as_str p ++ b'/' ∷ escape t) ≡ some q)
        × (tokens q ≡ tokens p ++ t ∷ [])
  pub parse_join :
      (p q : PointerBuf)
      → (r : PointerBuf) × (parse (as_str p ++ as_str q) ≡ some r)
        × (tokens r ≡ tokens p ++ tokens q)
  pub to_index-to_string : (i : ℕ) → to_index (to_string i) ≡ some i
