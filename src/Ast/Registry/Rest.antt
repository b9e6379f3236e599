-- ===== src/Ast/Registry/Rest.antt =====
-- The parts of a file: what is left of `hydrateFile` once it is known whether the file is a target.
use protoc_gen_star.Base.{nat_eq, text_eq, ℕ, ◌≡◌, refl, Bool, List}
use protoc_gen_star.Ast.Descriptor.{FileDesc}
use protoc_gen_star.Ast.Entity.{File, file_all_messages}
use protoc_gen_star.Ast.Graph.{Graph, Hydration, ◌>>=◌, return}
use protoc_gen_star.Ast.Types.{add_types, typed_fields}
use protoc_gen_star.Ast.Hydrate.{
  hydrate_enums, hydrate_extensions, hydrate_messages, hydrate_services,
}
use protoc_gen_star.Ast.SourceInfo.{hydrate_source_code_info}
use protoc_gen_star.Ast.Process.{file_fqn, new_file}
use protoc_gen_star.Ast.Returns.{Returns, Returns-return, Returns-after}
use protoc_gen_star.Ast.Registry.Fields.{HasTypes, Ends, Ends-after, typed_after}
use protoc_gen_star.Ast.Registry.{Through, Through-bind, Through-return}
use protoc_gen_star.Ast.Registry.Types.{add_types-Through, hydrate_source_code_info-Through}
use protoc_gen_star.Ast.Registry.Parts.{
  hydrate_enums-Through, hydrate_extensions-Through, hydrate_messages-Through,
  hydrate_services-Through,
}

-- The parts of a file, once it is known whether it is a target.
unfoldable pub rest_of_file : FileDesc → ℕ → List ℕ → Bool → Hydration File
rest_of_file d id ds target = do
  let fqn = file_fqn d.package_name
  es ← hydrate_enums fqn d.enum_types
  xs ← hydrate_extensions fqn d.extensions
  ms ← hydrate_messages fqn d.message_types
  ss ← hydrate_services fqn d.services
  u ← add_types (typed_fields (file_all_messages ms))
  v ← hydrate_source_code_info (new_file d id ds target es xs ms ss) d.locations
  return (new_file d id ds target es xs ms ss)

pub rest_of_file-Through :
    (d : FileDesc) (id : ℕ) (ds : List ℕ) (target : Bool) → Through (rest_of_file d id ds target)
unfolding rest_of_file
rest_of_file-Through d id ds target =
    let fqn = file_fqn d.package_name in
    Through-bind (hydrate_enums fqn d.enum_types) _ (hydrate_enums-Through fqn d.enum_types) (λ es.
      Through-bind (hydrate_extensions fqn d.extensions) _
        (hydrate_extensions-Through fqn d.extensions)
        (λ xs.
          Through-bind (hydrate_messages fqn d.message_types) _
            (hydrate_messages-Through fqn d.message_types)
            (λ ms.
              Through-bind (hydrate_services fqn d.services) _
                (hydrate_services-Through fqn d.services)
                (λ ss.
                  Through-bind (add_types (typed_fields (file_all_messages ms))) _
                    (add_types-Through (typed_fields (file_all_messages ms)))
                    (λ u.
                      Through-bind
                        (hydrate_source_code_info (new_file d id ds target es xs ms ss) d.locations)
                        _
                        (hydrate_source_code_info-Through (new_file d id ds target es xs ms ss)
                          d.locations)
                        (λ v. Through-return (new_file d id ds target es xs ms ss)))))))

-- The file that these numbers and this answer end in.
pub record IsNew (d : FileDesc) (id : ℕ) (ds : List ℕ) (target : Bool) (f : File) : Type 0 where
  pub same_desc : f.desc ≡ d
  pub same_id : f.id ≡ id
  pub same_deps : f.dependencies ≡ ds
  pub same_target : f.build_target ≡ target

pub rest_of_file-IsNew :
    (d : FileDesc) (id : ℕ) (ds : List ℕ) (target : Bool)
    → Returns (rest_of_file d id ds target) (IsNew d id ds target)
unfolding rest_of_file
rest_of_file-IsNew d id ds target =
    let fqn = file_fqn d.package_name in
    let Q : File → Type 0 = IsNew d id ds target in
    Returns-after (hydrate_enums fqn d.enum_types) _ Q (λ es.
      Returns-after (hydrate_extensions fqn d.extensions) _ Q (λ xs.
        Returns-after (hydrate_messages fqn d.message_types) _ Q (λ ms.
          Returns-after (hydrate_services fqn d.services) _ Q (λ ss.
            let fl = new_file d id ds target es xs ms ss in
            Returns-after (add_types (typed_fields (file_all_messages ms))) _ Q (λ u.
              Returns-after (hydrate_source_code_info fl d.locations) _ Q (λ v.
                Returns-return fl Q (record {
                  same_desc = refl;
                  same_id = refl;
                  same_deps = refl;
                  same_target = refl;
                })))))))

pub rest_of_file-HasTypes :
    (d : FileDesc) (id : ℕ) (ds : List ℕ) (target : Bool)
    → Ends
        (rest_of_file d id ds target)
        (λ f g. HasTypes g (typed_fields (file_all_messages f.msgs)))
unfolding rest_of_file
rest_of_file-HasTypes d id ds target =
    let fqn = file_fqn d.package_name in
    let Q : File → Graph → Type 0 = λ f g. HasTypes g (typed_fields (file_all_messages f.msgs)) in
    Ends-after (hydrate_enums fqn d.enum_types) _ Q (λ es.
      Ends-after (hydrate_extensions fqn d.extensions) _ Q (λ xs.
        Ends-after (hydrate_messages fqn d.message_types) _ Q (λ ms.
          Ends-after (hydrate_services fqn d.services) _ Q (λ ss.
            let fl = new_file d id ds target es xs ms ss in
            typed_after fl (λ u. hydrate_source_code_info fl d.locations >>= (λ v. return fl))
              (λ u.
                Through-bind (hydrate_source_code_info fl d.locations) _
                  (hydrate_source_code_info-Through fl d.locations) (λ v. Through-return fl))
              (λ u.
                Returns-after (hydrate_source_code_info fl d.locations) _ (λ f. fl ≡ f)
                  (λ v. Returns-return fl (λ f. fl ≡ f) refl))))))
