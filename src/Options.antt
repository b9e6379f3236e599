-- ===== src/Options.antt =====
-- extension.go: `extension`, which reads the value of an option into a variable of the caller by
-- reflection. The types `T` of values, whether one can be assigned to another, and the extractor
-- are arguments. A panic of the reflect package is the answer `panics`.
pub mod Callers
mod Tests
use protoc_gen_star.Base.{if◌then◌else◌, Bool, true, false, Option, none, some}

-- A `reflect.Value` of the caller: a plain one of some type, a pointer, a nil pointer with what a
-- new element of it is, an interface with what it holds, or a nil interface.
pub data Slot (T : Type 0) : Type 0 where
  plain : T → Slot T
  pointer nil_pointer interface : Slot T → Slot T
  nil_interface : Slot T

pub data ExtensionError : Type 0 where
  nil_info nil_output not_a_pointer nil_value cannot_assign : ExtensionError

-- The two results of `extension`, and what it has put into the variable.
pub data Answer (T : Type 0) : Type 0 where
  answer : Bool → Option ExtensionError → Option T → Answer T
  panics : Answer T

-- A value with its pointers and interfaces taken off: `none` is the zero `Value`.
abbrev pub contents : {T : Type 0} → Slot T → Option T
contents (plain t) = some t
contents (pointer s) = contents s
contents (nil_pointer s) = none
contents (interface s) = contents s
contents nil_interface = none

-- The variable that is set: its type and whether it can be set, or no variable, or a panic of `Set`
-- on a nil pointer that cannot be set.
pub data Variable (T : Type 0) : Type 0 where
  variable : Bool → T → Variable T
  no_variable unsettable : Variable T

-- The loop on `o`: what a pointer points to can be set, what an interface holds cannot.
unfoldable pub settle : {T : Type 0} → Bool → Slot T → Variable T
settle settable (plain t) = variable settable t
settle settable (pointer s) = settle true s
settle settable (nil_pointer s) = let rest = settle true s in if settable then rest else unsettable
settle settable (interface s) = settle false s
settle settable nil_interface = no_variable

abbrev pub is_pointer_kind : {T : Type 0} → Slot T → Bool
is_pointer_kind (pointer s) = true
is_pointer_kind (nil_pointer s) = true
is_pointer_kind _ = false

module _ {T : Type 0} (assignable : T → T → Bool) where
  -- `if v.Type().AssignableTo(o.Type()) { o.Set(v) … }`; the zero `Value` has no type.
  unfoldable pub assign : Option T → Variable T → Answer T
  assign none o = panics
  assign (some v) no_variable = panics
  assign (some v) unsettable = panics
  assign (some v) (variable settable t) =
      if assignable v t
      then if settable then answer true none (some v) else panics
      else answer true (some cannot_assign) none

  module _ {Opts Info : Type 0} (has : Opts → Info → Bool)
      (get : Opts → Info → Option (Slot T)) where
    abbrev pub extracted : Slot T → Option (Slot T) → Answer T
    extracted out none = answer false (some nil_value) none
    extracted out (some v) = assign (contents v) (settle false out)

    abbrev pub into : Opts → Info → Option (Slot T) → Answer T
    into opts e none = answer false (some nil_output) none
    into opts e (some out) =
        if is_pointer_kind out
        then if has opts e then extracted out (get opts e) else answer false none none
        else answer false (some not_a_pointer) none

    abbrev pub with_info : Opts → Option Info → Option (Slot T) → Answer T
    with_info opts none out = answer false (some nil_info) none
    with_info opts (some e) out = into opts e out

    -- `extension`
    unfoldable pub extension : Option Opts → Option Info → Option (Slot T) → Answer T
    unfolding settle assign
    extension none e out = answer false none none
    extension (some opts) e out = with_info opts e out

    -- The `ext` of the caller in an `interface{}`.
    abbrev pub boxed : Option (Slot T) → Slot T
    boxed none = nil_interface
    boxed (some s) = interface s

    -- The method `Extension` of every entity: `extension(f.desc.GetOptions(), desc, &ext)`.
    unfoldable pub entity_extension : Option Opts → Option Info → Option (Slot T) → Answer T
    unfolding extension
    entity_extension opts desc ext = extension opts desc (some (pointer (boxed ext)))
