-- ===== src/Artifact.antt =====
-- artifact.go: the artifacts that modules make, how a generator artifact becomes a file of the
-- response, and which file names are accepted. A template is its `Execute` method with the data that
-- it is given: the text that it writes, or its error.
pub mod FileName
mod Tests
use protoc_gen_star.Base.{
  if◌then◌else◌, ◌==◌, nat_eq, Text, text_eq, ℕ, Bool, ◌||◌, Option, none, some,
}
use protoc_gen_star.Text.{has_prefix}
use protoc_gen_star.FilePath.{dot, dot_dot, is_abs, clean}

pub data Error : Type 0 where
  absolute_name outside_name template_failed process_failed io_failed : Error
  append_target_missing unrecognized_artifact : Error

-- A value, or the error that ends the run.
pub data Result {ℓ} (T : Type ℓ) : Type ℓ where
  err : Error → Result T
  ok : T → Result T

infixl 5 ◌>>=◌
abbrev pub ◌>>=◌ {ℓ κ} : {S : Type ℓ} {T : Type κ} → Result S → (S → Result T) → Result T
err e >>= next = err e
ok s >>= next = next s

-- `TemplateArtifact`: `none` where `Template.Execute` fails.
pub record TemplateArtifact : Type 0 where
  pub executed : Option Text

-- `TemplateArtifact.render`
abbrev pub render_template : TemplateArtifact → Result Text
render_template ta = elim ta.executed [ none ↦ err template_failed | some s ↦ ok s ]

pub record GeneratorFile : Type 0 where
  pub name : Text
  pub contents : Text
  pub overwrite : Bool

pub record GeneratorTemplateFile : Type 0 where
  pub template : TemplateArtifact
  pub name : Text
  pub overwrite : Bool

pub record GeneratorAppend : Type 0 where
  pub file_name : Text
  pub contents : Text

pub record GeneratorTemplateAppend : Type 0 where
  pub template : TemplateArtifact
  pub file_name : Text

pub record GeneratorInjection : Type 0 where
  pub file_name : Text
  pub insertion_point : Text
  pub contents : Text

pub record GeneratorTemplateInjection : Type 0 where
  pub template : TemplateArtifact
  pub file_name : Text
  pub insertion_point : Text

pub record CustomFile : Type 0 where
  pub name : Text
  pub contents : Text
  pub perms : ℕ
  pub overwrite : Bool

pub record CustomTemplateFile : Type 0 where
  pub template : TemplateArtifact
  pub name : Text
  pub perms : ℕ
  pub overwrite : Bool

pub record GeneratorError : Type 0 where
  pub message : Text

-- The types that the persister tells apart; `unrecognized` stands for any other.
pub data Artifact : Type 0 where
  file : GeneratorFile → Artifact
  template_file : GeneratorTemplateFile → Artifact
  append : GeneratorAppend → Artifact
  template_append : GeneratorTemplateAppend → Artifact
  injection : GeneratorInjection → Artifact
  template_injection : GeneratorTemplateInjection → Artifact
  custom_file : CustomFile → Artifact
  custom_template_file : CustomTemplateFile → Artifact
  error : GeneratorError → Artifact
  unrecognized : Artifact

-- `CodeGeneratorResponse_File`: fields that are not set are `none`.
pub record ResponseFile : Type 0 where
  pub name : Option Text
  pub insertion_point : Option Text
  pub content : Option Text

-- `cleanGeneratorFileName`; `filepath.ToSlash` changes nothing on Unix.
unfoldable pub clean_generator_file_name : Text → Result Text
unfolding has_prefix
clean_generator_file_name name =
    if is_abs name
    then err absolute_name
    else let cleaned = clean name in
      if cleaned == dot || has_prefix cleaned dot_dot then err outside_name else ok cleaned

-- The method `ProtoFile` of each generator artifact.
unfoldable pub file_proto_file : GeneratorFile → Result ResponseFile
file_proto_file f = do
  name ← clean_generator_file_name f.name
  ok (record { name = some name; insertion_point = none; content = some f.contents })

unfoldable pub template_file_proto_file : GeneratorTemplateFile → Result ResponseFile
template_file_proto_file f = do
  name ← clean_generator_file_name f.name
  content ← render_template f.template
  ok (record { name = some name; insertion_point = none; content = some content })

unfoldable pub append_proto_file : GeneratorAppend → Result ResponseFile
append_proto_file f = do
  _ ← clean_generator_file_name f.file_name
  ok (record { name = none; insertion_point = none; content = some f.contents })

unfoldable pub template_append_proto_file : GeneratorTemplateAppend → Result ResponseFile
template_append_proto_file f = do
  _ ← clean_generator_file_name f.file_name
  content ← render_template f.template
  ok (record { name = none; insertion_point = none; content = some content })

unfoldable pub injection_proto_file : GeneratorInjection → Result ResponseFile
injection_proto_file f = do
  name ← clean_generator_file_name f.file_name
  ok (record {
    name = some name;
    insertion_point = some f.insertion_point;
    content = some f.contents;
  })

unfoldable pub template_injection_proto_file : GeneratorTemplateInjection → Result ResponseFile
template_injection_proto_file f = do
  name ← clean_generator_file_name f.file_name
  content ← render_template f.template
  ok (record { name = some name; insertion_point = some f.insertion_point; content = some content })
