-- ===== src/Persister/Runs.antt =====
-- `Persist` on groups of files, and what a run that ends without failure has made on its way.
use protoc_gen_star.Base.{
  Text, All, ◌≡◌, refl, ◌≢◌, Bool, false, Option, none, some, List, [], ◌∷◌, arith,
}
use protoc_gen_star.Text.{split}
use protoc_gen_star.FilePath.{slash}
use protoc_gen_star.Artifact.{
  append_target_missing, unrecognized_artifact, Result, err, ok, ◌>>=◌, render_template,
  GeneratorFile, GeneratorTemplateFile, GeneratorAppend, GeneratorTemplateAppend,
  GeneratorInjection, GeneratorTemplateInjection, Artifact, file, template_file, append,
  template_append, injection, template_injection, custom_file, custom_template_file, error,
  unrecognized, ResponseFile, clean_generator_file_name, file_proto_file, template_file_proto_file,
  append_proto_file, template_append_proto_file, injection_proto_file,
  template_injection_proto_file,
}
use protoc_gen_star.Artifact.FileName.{GoesDown, clean_generator_file_name-GoesDown}
use protoc_gen_star.Persister.{Persister, processed}
use protoc_gen_star.Persister.Groups.{Group, IsNamed, IsChunk, add_chunk, put_file}

-- Inversion of a successful bind.
pub bind-eq-ok {ℓ κ} :
    {S : Type ℓ} {T : Type κ} (r : Result S) (next : S → Result T) {t : T}
    → (r >>= next) ≡ ok t
    → (s : S) × (r ≡ ok s) × (next s ≡ ok t)
bind-eq-ok (err e) next h = cc
bind-eq-ok (ok s) next h = (s, refl, h)

abbrev pub missing_target : Option (List Group) → Result (List Group)
missing_target none = err append_target_missing
missing_target (some gs) = ok gs

module _ (p : Persister) where
  abbrev pub put_made : Artifact → Result ResponseFile → Bool → List Group → Result (List Group)
  put_made a made overwrite gs = do f ← made; f' ← processed p a f; ok (put_file f' overwrite gs)

  abbrev pub chunk_made : Artifact → Result ResponseFile → Text → List Group → Result (List Group)
  chunk_made a made file_name gs = do
    f ← made
    f' ← processed p a f
    n ← clean_generator_file_name file_name
    missing_target (add_chunk n f' gs)

  -- What an artifact does to the groups; files on disk and errors do nothing.
  abbrev pub groups_one : Artifact → List Group → Result (List Group)
  groups_one (file f) gs = put_made (file f) (file_proto_file f) f.overwrite gs
  groups_one (template_file f) gs =
      put_made (template_file f) (template_file_proto_file f) f.overwrite gs
  groups_one (append f) gs = chunk_made (append f) (append_proto_file f) f.file_name gs
  groups_one (template_append f) gs =
      chunk_made (template_append f) (template_append_proto_file f) f.file_name gs
  groups_one (injection f) gs = put_made (injection f) (injection_proto_file f) false gs
  groups_one (template_injection f) gs =
      put_made (template_injection f) (template_injection_proto_file f) false gs
  groups_one (custom_file f) gs = ok gs
  groups_one (custom_template_file f) gs = ok gs
  groups_one (error e) gs = ok gs
  groups_one unrecognized gs = err unrecognized_artifact

  abbrev pub groups_all : List Artifact → List Group → Result (List Group)
  groups_all [] gs = ok gs
  groups_all (a ∷ arts) gs = do gs' ← groups_one a gs; groups_all arts gs'

-- An accepted file name is not empty.
pub clean_generator_file_name-ne-nil :
    (name : Text) (out : Text) → clean_generator_file_name name ≡ ok out → out ≢ []
unfolding split
clean_generator_file_name-ne-nil name out h e =
    let (_, down) = clean_generator_file_name-GoesDown name out h in
    let parts : All GoesDown (split slash []) = rw e at down in parts.0.element.ne_nil refl

pub processed-name :
    (p : Persister) (a : Artifact) (f : ResponseFile) {f' : ResponseFile}
    → processed p a f ≡ ok f'
    → f'.name ≡ f.name
unfolding processed
processed-name p a f h = ground arith

pub >>=-eq {ℓ κ} :
    {A : Type ℓ} {B : Type κ} (m : Result A) (f : A → Result B) {a : A} {b : B}
    → m ≡ ok a
    → f a ≡ ok b
    → (m >>= f) ≡ ok b
>>=-eq m f e e' = rw e e'

pub ok-injective {ℓ} : {A : Type ℓ} {a b : A} → ok a ≡ ok b → a ≡ b
ok-injective h = cc

-- What `ProtoFile` makes.
abbrev pub Makes : (ResponseFile → Type 0) → Result ResponseFile → Type 0
Makes P (ok f) = P f
Makes P (err _) = Unit

pub Makes-bind :
    (P : ResponseFile → Type 0) (m : Result Text) (k : Text → Result ResponseFile)
    → ((n : Text) → m ≡ ok n → Makes P (k n))
    → Makes P (m >>= k)
Makes-bind P (ok n) k h = h n refl
Makes-bind P (err e) k h = tt

pub file-Makes : (f : GeneratorFile) → Makes IsNamed (file_proto_file f)
unfolding file_proto_file
file-Makes f = Makes-bind IsNamed _ _ (clean_generator_file_name-ne-nil f.name)

pub template_file-Makes : (f : GeneratorTemplateFile) → Makes IsNamed (template_file_proto_file f)
unfolding template_file_proto_file
template_file-Makes f = Makes-bind IsNamed _ _ λ n e.
    Makes-bind IsNamed (render_template f.template) _
      λ _ _. clean_generator_file_name-ne-nil f.name n e

pub append-Makes : (f : GeneratorAppend) → Makes IsChunk (append_proto_file f)
unfolding append_proto_file
append-Makes f = Makes-bind IsChunk (clean_generator_file_name f.file_name) _ λ _ _. refl

pub template_append-Makes :
    (f : GeneratorTemplateAppend) → Makes IsChunk (template_append_proto_file f)
unfolding template_append_proto_file
template_append-Makes f =
    Makes-bind IsChunk (clean_generator_file_name f.file_name) _
      λ _ _. Makes-bind IsChunk (render_template f.template) _ λ _ _. refl

pub injection-Makes : (f : GeneratorInjection) → Makes IsNamed (injection_proto_file f)
unfolding injection_proto_file
injection-Makes f = Makes-bind IsNamed _ _ (clean_generator_file_name-ne-nil f.file_name)

pub template_injection-Makes :
    (f : GeneratorTemplateInjection) → Makes IsNamed (template_injection_proto_file f)
unfolding template_injection_proto_file
template_injection-Makes f = Makes-bind IsNamed _ _ λ n e.
    Makes-bind IsNamed (render_template f.template) _
      λ _ _. clean_generator_file_name-ne-nil f.file_name n e
