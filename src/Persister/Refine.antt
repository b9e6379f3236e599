-- ===== src/Persister/Refine.antt =====
-- `Persist` refines the same run on groups.
use protoc_gen_star.Persister.Runs.{
  bind-eq-ok, put_made, chunk_made, groups_one, groups_all, clean_generator_file_name-ne-nil,
  processed-name, >>=-eq, ok-injective, Makes, file-Makes, template_file-Makes, append-Makes,
  template_append-Makes, injection-Makes, template_injection-Makes,
}
use protoc_gen_star.Persister.Kept.{add_chunk-AllGroups, put_file-IsGroup}
use protoc_gen_star.Base.{
  Option-cases, Text, All, ℕ, ◌≡◌, refl, sym, ap, ◌∙◌, inl, inr, Bool, false, List, [], ◌∷◌,
}
use protoc_gen_star.Artifact.{
  Result, err, ok, render_template, Artifact, file, template_file, append, template_append,
  injection, template_injection, custom_file, custom_template_file, error, unrecognized,
  ResponseFile, clean_generator_file_name,
}
use protoc_gen_star.Persister.{
  Response, FileSystem, Persister, post_process, insert_file, insert_append, processed, Output,
  write_artifact, with_files, persist_file, persist_append, persist_custom, persist_one,
  persist_all, persist,
}
use protoc_gen_star.Persister.Insert.{insert_file-flatten, insert_append-flatten}
use protoc_gen_star.Persister.Groups.{
  Group, IsNamed, IsChunk, IsGroup, flatten, add_chunk, put_file,
}

module _ (fs : FileSystem) (p : Persister) where
  -- The response files of `o` are those of the groups.
  pub record Shows (o : Output fs) (gs : List Group) : Type 0 where
    pub files : o.response.files ≡ flatten gs
    pub groups : All IsGroup gs

  abbrev Step : Result (List Group) → Output fs → Type 0
  Step r o' = (gs' : List Group) × (r ≡ ok gs') × Shows o' gs'

  put-Step :
      (a : Artifact) (overwrite : Bool) (o o' : Output fs) (gs : List Group) (f f' : ResponseFile)
      → IsNamed f
      → Shows o gs
      → processed p a f ≡ ok f'
      → o'.response.files ≡ insert_file o.response.files f' overwrite
      → Step (put_made p a (ok f) overwrite gs) o'
  put-Step a overwrite o o' gs f f' m s e h =
      let named : IsNamed f' = rw (processed-name p a f e) m in
      (
        put_file f' overwrite gs,
        rw e refl,
        record {
          files = h ∙ rw s.files (insert_file-flatten f' overwrite gs named s.groups);
          groups = put_file-IsGroup f' overwrite gs named s.groups;
        },
      )

  persist_file-Step :
      (a : Artifact) (made : Result ResponseFile) (overwrite : Bool) (o o' : Output fs)
      (gs : List Group)
      → Makes IsNamed made
      → Shows o gs
      → persist_file fs p a made overwrite o ≡ ok o'
      → Step (put_made p a made overwrite gs) o'
  unfolding persist_file
  persist_file-Step a (err e) overwrite o o' gs m s h = absurd (cc)
  persist_file-Step a (ok f) overwrite o o' gs m s h =
      let (f', e', h₂) =
        bind-eq-ok (processed p a f)
          (λ g. ok (with_files fs o (insert_file o.response.files g overwrite))) h in
      put-Step a overwrite o o' gs f f' m s e'
        (ap (λ (x : Output fs). x.response.files) (sym (ok-injective h₂)))

  chunk-Step :
      (a : Artifact) (name n : Text) (o o' : Output fs) (gs : List Group) (f f' : ResponseFile)
      → IsChunk f
      → Shows o gs
      → processed p a f ≡ ok f'
      → clean_generator_file_name name ≡ ok n
      → insert_append o.response.files n f' ≡ ok o'.response.files
      → Step (chunk_made p a (ok f) name gs) o'
  chunk-Step a name n o o' gs f f' m s e e' h =
      let chunk : IsChunk f' = rw (processed-name p a f e) m in
      let spec =
        insert_append-flatten n f' gs (clean_generator_file_name-ne-nil name n e') s.groups in
      let placed = rw s.files at h in
      elim (Option-cases (add_chunk n f' gs)) [
        | inl missing ↦ absurd (cc (rw missing at (sym spec ∙ placed)))
        | inr (gs', found) ↦ (
          gs',
          rw (e, e', found) refl,
          record {
            files = sym (ok-injective (rw found at (sym spec ∙ placed)));
            groups = rw found at (add_chunk-AllGroups n f' gs chunk s.groups);
          },
        )
      ]

  persist_append-Step :
      (a : Artifact) (made : Result ResponseFile) (name : Text) (o o' : Output fs) (gs : List Group)
      → Makes IsChunk made
      → Shows o gs
      → persist_append fs p a made name o ≡ ok o'
      → Step (chunk_made p a made name gs) o'
  unfolding persist_append
  persist_append-Step a (err e) name o o' gs m s h = absurd (cc)
  persist_append-Step a (ok f) name o o' gs m s h =
      let (f', e', h₂) = bind-eq-ok (processed p a f) _ h in
      let (n, e'', h₃) = bind-eq-ok (clean_generator_file_name name) _ h₂ in
      let (files, placed, h₄) =
        bind-eq-ok (insert_append o.response.files n f') (λ l. ok (with_files fs o l)) h₃ in
      chunk-Step a name n o o' gs f f' m s e' e''
        (placed ∙ ap (λ (x : Output fs). ok x.response.files) (ok-injective h₄))

  pub persist_custom-response :
      (a : Artifact) (made : Result Text) (name : Text) (overwrite : Bool) (perms : ℕ)
      (o o' : Output fs)
      → persist_custom fs p a made name overwrite perms o ≡ ok o'
      → o'.response ≡ o.response
  unfolding persist_custom
  persist_custom-response a made name overwrite perms o o' h =
      let (c, e, h₁) = bind-eq-ok made _ h in
      let (c', e', h₂) = bind-eq-ok (post_process p.procs a c) _ h₁ in
      let (d, e'', h₃) = bind-eq-ok (write_artifact fs name c' overwrite perms o.disk) _ h₂ in
      ap (λ (x : Output fs). x.response) (sym (ok-injective h₃))

  Step-same :
      (o o' : Output fs) (gs : List Group)
      → Shows o gs
      → o'.response.files ≡ o.response.files
      → Step (ok gs) o'
  Step-same o o' gs s e = (gs, refl, record { files = e ∙ s.files; groups = s.groups })

  persist_one-Step :
      (a : Artifact) (o o' : Output fs) (gs : List Group)
      → Shows o gs
      → persist_one fs p a o ≡ ok o'
      → Step (groups_one p a gs) o'
  unfolding persist_one
  persist_one-Step (file f) o o' gs s h = persist_file-Step _ _ _ o o' gs (file-Makes f) s h
  persist_one-Step (template_file f) o o' gs s h =
      persist_file-Step _ _ _ o o' gs (template_file-Makes f) s h
  persist_one-Step (append f) o o' gs s h = persist_append-Step _ _ _ o o' gs (append-Makes f) s h
  persist_one-Step (template_append f) o o' gs s h =
      persist_append-Step _ _ _ o o' gs (template_append-Makes f) s h
  persist_one-Step (injection f) o o' gs s h =
      persist_file-Step _ _ false o o' gs (injection-Makes f) s h
  persist_one-Step (template_injection f) o o' gs s h =
      persist_file-Step _ _ false o o' gs (template_injection-Makes f) s h
  persist_one-Step (custom_file f) o o' gs s h = Step-same o o' gs s (
      ap (λ (r : Response). r.files)
        (persist_custom-response (custom_file f) (ok f.contents) f.name f.overwrite f.perms o o' h))
  persist_one-Step (custom_template_file f) o o' gs s h = Step-same o o' gs s (
      ap (λ (r : Response). r.files)
        (persist_custom-response (custom_template_file f) (render_template f.template) f.name
          f.overwrite f.perms o o' h))
  persist_one-Step (error e) o o' gs s h =
      Step-same o o' gs s (ap (λ (x : Output fs). x.response.files) (sym (ok-injective h)))
  persist_one-Step unrecognized o o' gs s h = absurd (cc)

  persist_all-Step :
      (arts : List Artifact) (o o' : Output fs) (gs : List Group)
      → Shows o gs
      → persist_all fs p arts o ≡ ok o'
      → Step (groups_all p arts gs) o'
  unfolding persist_all
  persist_all-Step [] o o' gs s h =
      Step-same o o' gs s (ap (λ (x : Output fs). x.response.files) (sym (ok-injective h)))
  persist_all-Step (a ∷ arts) o o' gs s h =
      let (o₁, e, h₁) = bind-eq-ok (persist_one fs p a o) (persist_all fs p arts) h in
      let (gs₁, e₁, s₁) = persist_one-Step a o o₁ gs s e in
      let (gs₂, e₂, s₂) = persist_all-Step arts o₁ o' gs₁ s₁ h₁ in
      (gs₂, >>=-eq (groups_one p a gs) (groups_all p arts) e₁ e₂, s₂)

  -- If a run of `Persist` ends without failure, the same run on groups of files ends too, and the
  -- files of the response are exactly those of its groups, each a named file with the chunks
  -- appended to it behind it.
  pub persist-Shows :
      (arts : List Artifact) (d : fs.Disk) (o : Output fs)
      → persist fs p arts d ≡ ok o
      → (gs : List Group) × (groups_all p arts [] ≡ ok gs) × Shows o gs
  unfolding persist
  persist-Shows arts d o h = persist_all-Step arts _ o [] (record { files = refl; groups = tt }) h
