-- ===== src/Persister/Tests.antt =====
-- A disk of names and contents, and runs of the persister on it.
use protoc_gen_star.Persister.Runs.{groups_all}
use protoc_gen_star.Persister.Insert.{insert_file-flatten, insert_append-flatten}
use protoc_gen_star.Base.{
  nat_eq, Text, text_eq, text, beq_false, All, lookup, insert, lookup-insert, lookup-insert_self,
  String, ◌≡◌, refl, sym, ◌≢◌, Bool, true, false, not, Option, none, some, List, [], ◌∷◌, arith,
}
use protoc_gen_star.FilePath.{clean}
use protoc_gen_star.Artifact.{
  append_target_missing, err, ok, Artifact, file, append, error, ResponseFile,
  clean_generator_file_name, file_proto_file, append_proto_file,
}
use protoc_gen_star.Persister.{
  FileSystem, Persister, is_nil, insert_file, insert_append, processed, Output, write_artifact,
  persist,
}
use protoc_gen_star.Persister.Groups.{Group, IsGroup, flatten}
use protoc_gen_star.Persister.Refine.{Shows, persist-Shows}
use protoc_gen_star.Persister.Messages.{messages, joined, persist-error}
use protoc_gen_star.Persister.Disk.{DiskLaws, write_artifact_keeps, write_artifact_overwrites}

abbrev Files : Type 0
Files = List (Text × Text)

abbrev memory : FileSystem
memory = record {
  Disk = Files;
  mkdir_all = λ path perms d. some d;
  exists = λ n d. some (not (is_nil (lookup n d)));
  write_file = λ n s perms d. some (insert n s d);
}

memory_exists :
    (n : Text) (d : Files) (s : Text) (b : Bool)
    → lookup n d ≡ some s
    → ◌≡◌ {A = Option Bool} (some (not (is_nil (lookup n d)))) (some b)
    → b ≡ true
memory_exists n d s b r e = ground arith

memory_write :
    (n s : Text) (d d' : Files)
    → ◌≡◌ {A = Option Files} (some (insert n s d)) (some d')
    → lookup n d' ≡ some s
memory_write n s d d' e =
    let same : insert n s d ≡ d' = cc in rw (← same) (lookup-insert_self n s d)

memory_write_ne :
    (n s : Text) (d d' : Files)
    → ◌≡◌ {A = Option Files} (some (insert n s d)) (some d')
    → (m : Text) → m ≢ n
    → lookup m d' ≡ lookup m d
memory_write_ne n s d d' e m other =
    let same : insert n s d ≡ d' = cc in
    rw (← same, lookup-insert n m s d, beq_false n m (λ q. other (sym q))) refl

memory_mkdir :
    (d d' : Files)
    → ◌≡◌ {A = Option Files} (some d) (some d')
    → (n : Text) → lookup n d' ≡ lookup n d
memory_mkdir d d' e n = let same : d ≡ d' = cc in rw (← same) refl

abbrev memory_laws : DiskLaws memory
memory_laws = record {
  read = lookup;
  mkdir-read = λ path perms d d' e. memory_mkdir d d' e;
  exists-read = memory_exists;
  write-read = λ n s perms d d' e. memory_write n s d d' e;
  write-read_ne = λ n s perms d d' e. memory_write_ne n s d d' e;
}

abbrev plain : Persister
plain = record { procs = []; supported_features = some 1 }

abbrev gen : String → String → Bool → Artifact
gen n c o = file (record { name = text n; contents = text c; overwrite = o })

abbrev add : String → String → Artifact
add n c = append (record { file_name = text n; contents = text c })

abbrev named : String → String → ResponseFile
named n c = record { name = some (text n); insertion_point = none; content = some (text c) }

abbrev chunk : String → ResponseFile
chunk c = record { name = none; insertion_point = none; content = some (text c) }

abbrev problem : String → Artifact
problem m = error (record { message = text m })

abbrev arts : List Artifact
arts =
    gen "foo" "a" false
    ∷ gen "./bar" "b" false
    ∷ add "foo" "c"
    ∷ problem "e1"
    ∷ add "foo" "d"
    ∷ gen "foo" "z" true
    ∷ problem "e2"
    ∷ []

abbrev result : Output memory
result = record {
  response = record {
    error = some (text "e1; e2");
    supported_features = some 1;
    files = named "foo" "z" ∷ chunk "c" ∷ chunk "d" ∷ named "bar" "b" ∷ [];
  };
  disk = [];
}

persist-arts : persist memory plain arts [] ≡ ok result
unfolding persist file_proto_file append_proto_file clean_generator_file_name clean processed lookup
    insert
persist-arts = refl

persist_missing : persist memory plain (add "foo" "c" ∷ []) [] ≡ err append_target_missing
unfolding persist file_proto_file append_proto_file clean_generator_file_name clean processed
persist_missing = refl

persist-Shows_example :
    (gs : List Group) × (groups_all plain arts [] ≡ ok gs) × Shows memory plain result gs
persist-Shows_example = persist-Shows memory plain arts [] result persist-arts

persist-error_example :
    (result.response.error ≡ joined (messages arts)) × (result.response.supported_features ≡ some 1)
persist-error_example = persist-error memory plain arts [] result persist-arts

abbrev foo_group : Group
foo_group = record { head = named "foo" "a"; chunks = chunk "c" ∷ [] }

foo_group-IsGroup : IsGroup foo_group
foo_group-IsGroup = record { named = λ e. cc e; nameless = (refl, tt) }

-- An injection into a file of the same name, which is no target.
abbrev point_group : Group
point_group = record {
  head = record {
    name = some (text "foo");
    insertion_point = some (text "p");
    content = some (text "i");
  };
  chunks = [];
}

groups-IsGroup : All IsGroup (point_group ∷ foo_group ∷ [])
groups-IsGroup = (record { named = λ e. cc e; nameless = tt }, (foo_group-IsGroup, tt))

insert_file-flatten_example :
    insert_file (flatten (point_group ∷ foo_group ∷ [])) (named "foo" "z") true
    ≡ point_group.head ∷ named "foo" "z" ∷ chunk "c" ∷ []
insert_file-flatten_example =
    insert_file-flatten (named "foo" "z") true (point_group ∷ foo_group ∷ []) (λ e. cc e)
      groups-IsGroup

insert_append-flatten_example :
    insert_append (flatten (point_group ∷ foo_group ∷ [])) (text "foo") (chunk "d")
    ≡ ok (point_group.head ∷ named "foo" "a" ∷ chunk "c" ∷ chunk "d" ∷ [])
insert_append-flatten_example =
    insert_append-flatten (text "foo") (chunk "d") (point_group ∷ foo_group ∷ []) (λ e. cc e)
      groups-IsGroup

append_to_injection :
    insert_append (flatten (point_group ∷ [])) (text "foo") (chunk "d") ≡ err append_target_missing
append_to_injection =
    insert_append-flatten (text "foo") (chunk "d") (point_group ∷ []) (λ e. cc e)
      (groups-IsGroup.0, tt)

abbrev old_disk : Files
old_disk = (text "x", text "old") ∷ []

write_kept : write_artifact memory (text "x") (text "new") false 420 old_disk ≡ ok old_disk
unfolding lookup insert write_artifact
write_kept = refl

write_over :
    write_artifact memory (text "x") (text "new") true 420 old_disk
    ≡ ok ((text "x", text "new") ∷ [])
unfolding lookup insert write_artifact
write_over = refl

write_artifact_keeps_example : lookup (text "x") old_disk ≡ lookup (text "x") old_disk
write_artifact_keeps_example =
    write_artifact_keeps memory memory_laws (text "x") (text "new") (text "old") 420 old_disk
      old_disk (unfold lookup in refl) write_kept (text "x")

overwritten :
    (lookup (text "x") ((text "x", text "new") ∷ []) ≡ some (text "new"))
    × ((n : Text) → n ≢ text "x" → lookup n ((text "x", text "new") ∷ []) ≡ lookup n old_disk)
overwritten =
    write_artifact_overwrites memory memory_laws (text "x") (text "new") 420 old_disk
      ((text "x", text "new") ∷ []) write_over
