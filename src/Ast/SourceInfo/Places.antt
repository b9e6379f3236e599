-- ===== src/Ast/SourceInfo/Places.antt =====
-- The paths of the entities of a file in its descriptor.
use protoc_gen_star.Base.{ℕ, suc, List, [], ◌∷◌, ◌++◌}
use protoc_gen_star.Ast.Entity.{
  Enum, Message, message, Messages, no_messages, msg_cons, Service, File,
}
use protoc_gen_star.Ast.SourceInfo.{
  message_type_path, enum_type_path, service_path, message_type_field_path,
  message_type_nested_type_path, message_type_enum_type_path, message_type_oneof_decl_path,
  enum_type_value_path, service_type_method_path,
}

-- Paths, each with the number of the entity at its end.
abbrev pub Places : Type 0
Places = List (List ℕ × ℕ)

abbrev pub prefixed : ℕ → Places → Places
prefixed k [] = []
prefixed k ((path, id) ∷ ps) = (k ∷ path, id) ∷ prefixed k ps

-- One later in a list.
abbrev pub shift : List ℕ → List ℕ
shift [] = []
shift (i ∷ path) = suc i ∷ path

abbrev pub shifted : Places → Places
shifted [] = []
shifted ((path, id) ∷ ps) = (shift path, id) ∷ shifted ps

-- The places in the elements of a list, by their index.
abbrev pub places_in {ℓ} : {A : Type ℓ} → (A → Places) → List A → Places
places_in places [] = []
places_in places (x ∷ xs) = prefixed 0 (places x) ++ shifted (places_in places xs)

abbrev pub place : ℕ → Places
place id = ([], id) ∷ []

abbrev pub enum_places : Enum → Places
enum_places e = ([], e.id) ∷ prefixed enum_type_value_path (places_in (λ v. place v.id) e.vals)

abbrev pub service_places : Service → Places
service_places sv =
    ([], sv.id) ∷ prefixed service_type_method_path (places_in (λ m. place m.id) sv.methods)

abbrev mutual
  -- All that a message holds but its extensions, map entries included.
  pub message_places : Message → Places
  message_places (message h ms) =
      ([], h.id)
      ∷ (prefixed message_type_field_path (places_in (λ f. place f.id) h.fields)
          ++ (prefixed message_type_nested_type_path (messages_places ms)
              ++ (prefixed message_type_enum_type_path (places_in enum_places h.enums)
                  ++ prefixed message_type_oneof_decl_path (places_in (λ o. place o.id) h.oneofs))))

  pub messages_places : Messages → Places
  messages_places no_messages = []
  messages_places (msg_cons m ms) = prefixed 0 (message_places m) ++ shifted (messages_places ms)

abbrev pub file_places : File → Places
file_places f =
    ([], f.id)
    ∷ (prefixed message_type_path (messages_places f.msgs)
        ++ (prefixed enum_type_path (places_in enum_places f.enums)
            ++ prefixed service_path (places_in service_places f.srvs)))
