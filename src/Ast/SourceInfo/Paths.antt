-- ===== src/Ast/SourceInfo/Paths.antt =====
-- `childAtPath` follows the path of every entity of a file.
use protoc_gen_star.Base.{All, All-append, ℕ, suc, ◌≡◌, refl, Bool, true, false, not, List, [], ◌∷◌}
use protoc_gen_star.Ast.Entity.{
  MessageHead, Message, message, Messages, no_messages, msg_cons, File,
}
use protoc_gen_star.Ast.SourceInfo.{
  message_type_field_path, message_type_nested_type_path, message_type_enum_type_path,
  message_type_oneof_decl_path, Child, child, is_odd, leaf_child, child_in, enum_child,
  service_child, message_child, messages_child, file_child,
}
use protoc_gen_star.Ast.SourceInfo.Places.{
  Places, place, enum_places, service_places, message_places, messages_places, file_places,
}
use protoc_gen_star.Ast.SourceInfo.Follows.{
  Follows, prefixed-Follows, shifted-Follows, places_in-Follows, leaf-Follows, enum-Follows,
  service-Follows,
}

even-rest : (b : Bool) → not b ≡ true → b ≡ false
even-rest true h = cc h
even-rest false h = refl

message_child-field :
    (h : MessageHead) (ms : Messages) (path : List ℕ)
    → is_odd path ≡ true
    → message_child (message h ms) (message_type_field_path ∷ path)
      ≡ child_in (λ f. leaf_child f.id) h.fields path
unfolding message_child
message_child-field h ms [] o = cc
message_child-field h ms (i ∷ path) o = rw (even-rest (is_odd path) o) refl

message_child-nested :
    (h : MessageHead) (ms : Messages) (path : List ℕ)
    → is_odd path ≡ true
    → message_child (message h ms) (message_type_nested_type_path ∷ path) ≡ messages_child ms path
unfolding message_child messages_child
message_child-nested h ms [] o = cc
message_child-nested h ms (i ∷ path) o = rw (even-rest (is_odd path) o) refl

message_child-enum :
    (h : MessageHead) (ms : Messages) (path : List ℕ)
    → is_odd path ≡ true
    → message_child (message h ms) (message_type_enum_type_path ∷ path)
      ≡ child_in enum_child h.enums path
unfolding message_child
message_child-enum h ms [] o = cc
message_child-enum h ms (i ∷ path) o = rw (even-rest (is_odd path) o) refl

message_child-oneof :
    (h : MessageHead) (ms : Messages) (path : List ℕ)
    → is_odd path ≡ true
    → message_child (message h ms) (message_type_oneof_decl_path ∷ path)
      ≡ child_in (λ o. leaf_child o.id) h.oneofs path
unfolding message_child
message_child-oneof h ms [] o = cc
message_child-oneof h ms (i ∷ path) o = rw (even-rest (is_odd path) o) refl

message_child_self :
    (h : MessageHead) (ms : Messages) → message_child (message h ms) [] ≡ child h.id
unfolding message_child
message_child_self h ms = refl

messages_child-head :
    (m : Message) (ms : Messages) (path : List ℕ)
    → messages_child (msg_cons m ms) (0 ∷ path) ≡ message_child m path
unfolding messages_child
messages_child-head m ms path = refl

messages_child-tail :
    (m : Message) (ms : Messages) (i : ℕ) (path : List ℕ)
    → messages_child (msg_cons m ms) (suc i ∷ path) ≡ messages_child ms (i ∷ path)
unfolding messages_child
messages_child-tail m ms i path = refl

mutual
  message-Follows : (m : Message) → All (Follows false (message_child m)) (message_places m)
  message-Follows (message h ms) =
      let P = Follows false (message_child (message h ms)) in
      (
        record { parity = refl; found = message_child_self h ms },
        All-append P _ _
            (prefixed-Follows true _ _ _ _ (message_child-field h ms)
              (places_in-Follows _ (λ f. place f.id) (λ f. leaf-Follows f.id) h.fields))
            (All-append P _ _
              (prefixed-Follows true _ _ _ _ (message_child-nested h ms) (messages-Follows ms))
              (All-append P _ _
                (prefixed-Follows true _ _ _ _ (message_child-enum h ms)
                  (places_in-Follows _ enum_places enum-Follows h.enums))
                (prefixed-Follows true _ _ _ _ (message_child-oneof h ms)
                  (places_in-Follows _ (λ o. place o.id) (λ o. leaf-Follows o.id) h.oneofs)))),
      )

  messages-Follows : (ms : Messages) → All (Follows true (messages_child ms)) (messages_places ms)
  messages-Follows no_messages = tt
  messages-Follows (msg_cons m ms) =
      All-append (Follows true (messages_child (msg_cons m ms))) _ _
        (prefixed-Follows false (message_child m) _ 0 _ (λ path e. messages_child-head m ms path)
          (message-Follows m))
        (shifted-Follows (messages_child ms) _ _ (messages_child-tail m ms) (messages-Follows ms))

file-Follows : (f : File) → All (Follows false (file_child f)) (file_places f)
unfolding file_child
file-Follows f =
    let P = Follows false (file_child f) in
    (
      record { parity = refl; found = refl },
      All-append P _ _
          (prefixed-Follows true (messages_child f.msgs) _ _ _ (λ path o. rw o refl)
            (messages-Follows f.msgs))
          (All-append P _ _
            (prefixed-Follows true (child_in enum_child f.enums) _ _ _ (λ path o. rw o refl)
              (places_in-Follows _ enum_places enum-Follows f.enums))
            (prefixed-Follows true (child_in service_child f.srvs) _ _ _ (λ path o. rw o refl)
              (places_in-Follows _ service_places service-Follows f.srvs))),
    )

All-found :
    (at : List ℕ → Child) (ps : Places)
    → All (Follows false at) ps
    → All (λ p. at p.0 ≡ child p.1) ps
All-found at [] h = tt
All-found at (p ∷ ps) (h, hs) = (h.found, All-found at ps hs)

-- `childAtPath` of a file finds every message, field, enum, enum value, oneof, service and method
-- of the file, map entries and their fields included, at its path in the descriptor, and the file
-- itself at the empty path.
pub file_child-file_places : (f : File) → All (λ p. file_child f p.0 ≡ child p.1) (file_places f)
file_child-file_places f = All-found (file_child f) (file_places f) (file-Follows f)
