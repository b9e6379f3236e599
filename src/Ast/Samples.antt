-- ===== src/Ast/Samples.antt =====
-- A small package of one file, for the tests.
use protoc_gen_star.Base.{ℕ, ◌+◌, Bool, true, false, none, [], ◌∷◌, nat_eq, text_eq}
use protoc_gen_star.Proto.{proto3, optional, bool_t}
use protoc_gen_star.Ast.Descriptor.{no_descs}
use protoc_gen_star.Ast.Entity.{Field, MessageHead, message, no_messages, msg_cons, File}
use protoc_gen_star.Ast.Graph.{Package}

abbrev pub a_field : ℕ → Field
a_field n = record {
  id = n;
  fqn = [];
  desc = record {
    name = n ∷ [];
    label = optional;
    type = bool_t;
    type_name = [];
    extendee = [];
    oneof_index = none;
    proto3_optional = false;
  };
  oneof = none;
}

abbrev pub a_head : ℕ → Bool → MessageHead
a_head n is_entry = record {
  id = n;
  fqn = [];
  info = record {
    name = n ∷ [];
    enum_types = [];
    oneof_decls = [];
    fields = [];
    extensions = [];
    map_entry = is_entry;
  };
  enums = [];
  oneofs = [];
  fields = a_field (n + 1) ∷ [];
  def_exts = [];
}

-- A message with a map entry and a nested message.
abbrev pub a_file : File
a_file = record {
  id = 0;
  fqn = [];
  desc = record {
    name = [];
    package_name = [];
    dependencies = [];
    public_dependencies = [];
    enum_types = [];
    extensions = [];
    message_types = no_descs;
    services = [];
    syntax = proto3;
    go_package = [];
    locations = [];
  };
  dependencies = [];
  build_target = true;
  enums = [];
  def_exts = [];
  msgs =
      msg_cons
        (message (a_head 1 false) (
          msg_cons (message (a_head 3 true) no_messages)
            (msg_cons (message (a_head 5 false) no_messages) no_messages)))
        no_messages;
  srvs = [];
}

abbrev pub a_package : Package
a_package = record { proto_name = []; files = a_file ∷ [] }
