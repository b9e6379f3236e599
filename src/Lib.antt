-- ===== src/Lib.antt =====
-- protoc-gen-star, a library for plugins of the protocol buffer compiler.
--
-- protoc sends a plugin a request: the descriptors of some files. `ProcessCodeGeneratorRequest`
-- (ast.go) builds the graph of entities out of it; modules (module.go) walk the graph in a build
-- context (build_context.go), with the parameters of the run (parameters.go), name what they make
-- (name.go, lang/go), and capture artifacts (artifact.go); the persister (persister.go) makes the
-- response and the files on disk out of them.
--
-- Base holds what the modules share: texts as lists of code points, equality as an interface,
-- association lists for Go's maps. Text is what the program uses of the package strings.
-- * Name is name.go: `split_name` is `Name.Split` with one `step` for each rune, and the casings
--   are `transform` on its parts. The Unicode tables are the parameter `Unicode`.
-- * FilePath is the type of that name in name.go, on `filepath.Clean`, `Join`, `Dir`, `Base` and
--   `Ext` as they are documented for slashes.
-- * Artifact is artifact.go. A template is what its `Execute` gives: a text or an error.
-- * Persister is persister.go and post_process.go: `persist` is `Persist`, and a call that fails
--   ends the run with an error. The file system is the parameter `FileSystem`; a post processor is
--   a pair of functions. Its children show that the response list stands for groups of files.
-- * Proto is proto.go and wkt.go.
-- * Ast is ast.go with the entities of file.go, message.go, enum.go, enum_value.go, field.go,
--   oneof.go, extension.go, service.go, method.go and package.go, and the types of field_type.go
--   and field_type_elem.go. The objects have numbers for addresses; `Graph` is the state of the
--   construction; an unseen name, a group, and Go's panics end it with a `Fault`.
--   Ast/Visit is node.go with the `accept` methods, where a walk passes a state of the world on;
--   Ast/SourceInfo is source_code_info.go with the `childAtPath` methods;
--   Ast/Dependents is `assignDependent` with the caches of message.go, and Ast/Presence is what
--   fields and oneofs tell of presence. The field in an extension has no syntax to ask for: `none`
--   is the panic. Ast/Transitive is what files, messages and services import. Ast/Registry is what
--   the graph knows of packages, targets and dependents of files, and of the types of fields.
-- * Parameters is parameters.go and lang/go/parameters.go. `sort.Strings` and the functions of
--   strconv and time are arguments.
-- * Workflow is workflow.go with `AST` and `Render` of generator.go; a phase is a function on the
--   state of the world, and reading, unmarshalling and writing are arguments. GoFormat is
--   lang/go/gofmt.go and lang/go/goimports.go, with their formatters as arguments.
--   Workflow/Plugin is a whole run, Workflow/Setup is init_option.go with the rest of generator.go.
-- * Debugger is debug.go: a call on a debugger changes the console, ends the process, or panics. The
--   functions of fmt and log are the parameter `Format`. Loader is testutils/loader.go.
--   Options is `extension` of extension.go, with what it asks of reflection written out.
-- * Comment is comment.go, for texts that the first buffer of the scanner holds.
-- * Context is build_context.go, Module is module.go, TypeName is lang/go/type_name.go, GoName is
--   lang/go/camel.go.
-- * GoPackage is lang/go/package.go and GoNames is lang/go/name.go with `context.Type`; the keywords
--   of Go and the Unicode tables are arguments, and so is what a type refers to.
--
-- The loops of the program are recursions on the list that they run over, and the nested messages
-- of a descriptor are a recursion on the descriptor. `populate_cache` runs on fuel, since messages
-- may use each other in a circle; two more than the number of uses is enough. So does
-- `transitive_imports`, for which any fuel above the number of the file is enough,
-- `file_dependents`, for which any fuel above its rank is, and `scan_comment`, for which one more
-- than the length of the text is. Numbers are lengths, indices, positions and code points, which
-- stay below the bounds of Go's int.
--
-- Not modelled: the debug plugin and the example plugin. Outside Debugger and Workflow/Setup a
-- failure ends a run. A negative oneof index counts as one out of range. The names of types that a
-- graph refers to are numbers and not pointers.
pub mod Base
pub mod Text
pub mod Name
pub mod FilePath
pub mod Artifact
pub mod Persister
pub mod Proto
pub mod Parameters
pub mod Context
pub mod Module
pub mod Workflow
pub mod Loader
pub mod Options
pub mod TypeName
pub mod GoName
pub mod GoPackage
pub mod GoNames
pub mod GoFormat
pub mod Comment
pub mod Debugger
pub mod Ast
