-- ===== src/Module.antt =====
-- module.go: what `ModuleBase` keeps, its calls on its context, and the artifacts that it captures.
-- A template stands with the data that it is given.
pub mod Captured
mod Tests
use protoc_gen_star.Base.{Text, ℕ, true, false, Option, none, some, List, [], ◌∷◌, ◌++◌}
use protoc_gen_star.Artifact.{
  TemplateArtifact, Artifact, file, template_file, append, template_append, injection,
  template_injection, custom_file, custom_template_file, error,
}
use protoc_gen_star.Context.{BuildContext, push_prefix, push_dir, pop, pop_dir}

-- `ModuleBase`
pub record ModuleBase : Type 0 where
  pub build_context : BuildContext
  pub artifacts : List Artifact

-- `ModuleBase.InitContext`
abbrev pub init_context : ModuleBase → BuildContext → ModuleBase
init_context m c = record m { build_context = c }

-- `ModuleBase.Push`
abbrev pub module_push : ModuleBase → Text → ModuleBase
module_push m prefix = record m { build_context = push_prefix m.build_context prefix }

-- `ModuleBase.PushDir`
abbrev pub module_push_dir : ModuleBase → Text → ModuleBase
module_push_dir m d = record m { build_context = push_dir m.build_context d }

-- `ModuleBase.Pop`
abbrev pub module_pop : ModuleBase → Option ModuleBase
module_pop m = elim (pop m.build_context) [
  | none ↦ none
  | some c ↦ some (record m { build_context = c })
]

-- `ModuleBase.PopDir`
abbrev pub module_pop_dir : ModuleBase → ModuleBase
module_pop_dir m = record m { build_context = pop_dir m.build_context }

-- `ModuleBase.Artifacts`: what was captured, and the module without it.
abbrev pub take_artifacts : ModuleBase → List Artifact × ModuleBase
take_artifacts m = (m.artifacts, record m { artifacts = [] })

-- `ModuleBase.AddArtifact`
abbrev pub add_artifact : ModuleBase → List Artifact → ModuleBase
add_artifact m as_given = record m { artifacts = m.artifacts ++ as_given }

-- `ModuleBase.AddGeneratorFile`
abbrev pub add_generator_file : ModuleBase → Text → Text → ModuleBase
add_generator_file m name content =
    add_artifact m (file (record { name = name; contents = content; overwrite = false }) ∷ [])

-- `ModuleBase.OverwriteGeneratorFile`
abbrev pub overwrite_generator_file : ModuleBase → Text → Text → ModuleBase
overwrite_generator_file m name content =
    add_artifact m (file (record { name = name; contents = content; overwrite = true }) ∷ [])

-- `ModuleBase.AddGeneratorTemplateFile`
abbrev pub add_generator_template_file : ModuleBase → Text → TemplateArtifact → ModuleBase
add_generator_template_file m name tpl =
    add_artifact m (template_file (record { template = tpl; name = name; overwrite = false }) ∷ [])

-- `ModuleBase.OverwriteGeneratorTemplateFile`
abbrev pub overwrite_generator_template_file : ModuleBase → Text → TemplateArtifact → ModuleBase
overwrite_generator_template_file m name tpl =
    add_artifact m (template_file (record { template = tpl; name = name; overwrite = true }) ∷ [])

-- `ModuleBase.AddGeneratorAppend`
abbrev pub add_generator_append : ModuleBase → Text → Text → ModuleBase
add_generator_append m name content =
    add_artifact m (append (record { file_name = name; contents = content }) ∷ [])

-- `ModuleBase.AddGeneratorTemplateAppend`
abbrev pub add_generator_template_append : ModuleBase → Text → TemplateArtifact → ModuleBase
add_generator_template_append m name tpl =
    add_artifact m (template_append (record { template = tpl; file_name = name }) ∷ [])

-- `ModuleBase.AddGeneratorInjection`
abbrev pub add_generator_injection : ModuleBase → Text → Text → Text → ModuleBase
add_generator_injection m name point content =
    add_artifact m
      (injection (record { file_name = name; insertion_point = point; contents = content }) ∷ [])

-- `ModuleBase.AddGeneratorTemplateInjection`
abbrev pub add_generator_template_injection :
    ModuleBase → Text → Text → TemplateArtifact → ModuleBase
add_generator_template_injection m name point tpl =
    add_artifact m (
      template_injection (record { template = tpl; file_name = name; insertion_point = point })
      ∷ [])

-- `ModuleBase.AddCustomFile`
abbrev pub add_custom_file : ModuleBase → Text → Text → ℕ → ModuleBase
add_custom_file m name content perms = add_artifact m (
    custom_file (record { name = name; contents = content; perms = perms; overwrite = false }) ∷ [])

-- `ModuleBase.OverwriteCustomFile`
abbrev pub overwrite_custom_file : ModuleBase → Text → Text → ℕ → ModuleBase
overwrite_custom_file m name content perms =
    add_artifact m (
      custom_file (record { name = name; contents = content; perms = perms; overwrite = true })
      ∷ [])

-- `ModuleBase.AddCustomTemplateFile`
abbrev pub add_custom_template_file : ModuleBase → Text → TemplateArtifact → ℕ → ModuleBase
add_custom_template_file m name tpl perms = add_artifact m (
    custom_template_file (record { template = tpl; name = name; perms = perms; overwrite = false })
    ∷ [])

-- `ModuleBase.OverwriteCustomTemplateFile`
abbrev pub overwrite_custom_template_file : ModuleBase → Text → TemplateArtifact → ℕ → ModuleBase
overwrite_custom_template_file m name tpl perms = add_artifact m (
    custom_template_file (record { template = tpl; name = name; perms = perms; overwrite = true })
    ∷ [])

-- `ModuleBase.AddError`
abbrev pub add_module_error : ModuleBase → Text → ModuleBase
add_module_error m message = add_artifact m (error (record { message = message }) ∷ [])
