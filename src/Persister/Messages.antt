-- ===== src/Persister/Messages.antt =====
-- The error of the response is all the messages of the `GeneratorError` artifacts, in their order.
use protoc_gen_star.Persister.Runs.{bind-eq-ok, ok-injective}
use protoc_gen_star.Base.{
  Text, ℕ, ◌≡◌, refl, sym, ap, ◌∙◌, Bool, false, Option, none, some, List, [], ◌∷◌, ◌++◌,
  append_assoc,
}
use protoc_gen_star.Text.{join}
use protoc_gen_star.Artifact.{
  Result, ok, render_template, Artifact, file, template_file, append, template_append, injection,
  template_injection, custom_file, custom_template_file, error, unrecognized, ResponseFile,
  clean_generator_file_name, file_proto_file, template_file_proto_file, append_proto_file,
  template_append_proto_file, injection_proto_file, template_injection_proto_file,
}
use protoc_gen_star.Persister.{
  Response, FileSystem, Persister, insert_append, add_error, processed, Output, persist_file,
  persist_append, persist_custom, persist_one, persist_all, persist,
}
use protoc_gen_star.Persister.Refine.{persist_custom-response}

abbrev pub messages : List Artifact → List Text
messages [] = []
messages (error e ∷ arts) = e.message ∷ messages arts
messages (a ∷ arts) = messages arts

abbrev semicolon : Text
semicolon = b';' ∷ b' ' ∷ []

abbrev pub joined : List Text → Option Text
joined [] = none
joined (m ∷ ms) = some (join semicolon (m ∷ ms))

add_errors : Option Text → List Text → Option Text
add_errors o [] = o
add_errors o (m ∷ ms) = add_errors (add_error o m) ms

join-merge :
    (e m : Text) (ms : List Text)
    → join semicolon (join semicolon (e ∷ m ∷ []) ∷ ms) ≡ join semicolon (e ∷ m ∷ ms)
unfolding join
join-merge e m [] = refl
join-merge e m (n ∷ ms) =
    append_assoc e (semicolon ++ m) _ ∙ ap (λ t. e ++ t) (append_assoc semicolon m _)

add_errors-some :
    (e : Text) (ms : List Text) → add_errors (some e) ms ≡ some (join semicolon (e ∷ ms))
unfolding add_errors
add_errors-some e [] = unfold join in refl
add_errors-some e (m ∷ ms) =
    add_errors-some (join semicolon (e ∷ m ∷ [])) ms ∙ ap some (join-merge e m ms)

add_errors-none : (ms : List Text) → add_errors none ms ≡ joined ms
unfolding add_errors
add_errors-none [] = refl
add_errors-none (m ∷ ms) = add_errors-some m ms

add_errors-messages :
    (a : Artifact) (arts : List Artifact) (o : Option Text)
    → add_errors (add_errors o (messages (a ∷ []))) (messages arts)
      ≡ add_errors o (messages (a ∷ arts))
unfolding add_errors
add_errors-messages (error e) arts o = refl
add_errors-messages _ arts o = refl

module _ (fs : FileSystem) (p : Persister) where
  record Kept (o o' : Output fs) : Type 0 where
    features : o'.response.supported_features ≡ o.response.supported_features
    message : o'.response.error ≡ o.response.error

  persist_file-Kept :
      (a : Artifact) (made : Result ResponseFile) (overwrite : Bool) (o o' : Output fs)
      → persist_file fs p a made overwrite o ≡ ok o'
      → Kept o o'
  unfolding persist_file
  persist_file-Kept a made overwrite o o' h =
      let (f, e, h₁) = bind-eq-ok made _ h in
      let (f', e', h₂) = bind-eq-ok (processed p a f) _ h₁ in
      record {
        features = ap (λ (x : Output fs). x.response.supported_features) (sym (ok-injective h₂));
        message = ap (λ (x : Output fs). x.response.error) (sym (ok-injective h₂));
      }

  persist_append-Kept :
      (a : Artifact) (made : Result ResponseFile) (name : Text) (o o' : Output fs)
      → persist_append fs p a made name o ≡ ok o'
      → Kept o o'
  unfolding persist_append
  persist_append-Kept a made name o o' h =
      let (f, e, h₁) = bind-eq-ok made _ h in
      let (f', e', h₂) = bind-eq-ok (processed p a f) _ h₁ in
      let (n, e'', h₃) = bind-eq-ok (clean_generator_file_name name) _ h₂ in
      let (l, e₃, h₄) = bind-eq-ok (insert_append o.response.files n f') _ h₃ in
      record {
        features = ap (λ (x : Output fs). x.response.supported_features) (sym (ok-injective h₄));
        message = ap (λ (x : Output fs). x.response.error) (sym (ok-injective h₄));
      }

  persist_custom-Kept :
      (a : Artifact) (made : Result Text) (name : Text) (overwrite : Bool) (perms : ℕ)
      (o o' : Output fs)
      → persist_custom fs p a made name overwrite perms o ≡ ok o'
      → Kept o o'
  persist_custom-Kept a made name overwrite perms o o' h =
      let same = persist_custom-response fs p a made name overwrite perms o o' h in
      record {
        features = ap (λ (r : Response). r.supported_features) same;
        message = ap (λ (r : Response). r.error) same;
      }

  -- One artifact leaves the features alone, and adds its message, if it has one.
  record Adds (a : Artifact) (o o' : Output fs) : Type 0 where
    features : o'.response.supported_features ≡ o.response.supported_features
    message : o'.response.error ≡ add_errors o.response.error (messages (a ∷ []))

  Kept→Adds : (a : Artifact) (o o' : Output fs) → messages (a ∷ []) ≡ [] → Kept o o' → Adds a o o'
  Kept→Adds a o o' e k = record {
    features = k.features;
    message = k.message ∙ rw e (unfold add_errors in refl);
  }

  persist_one-Adds : (a : Artifact) (o o' : Output fs) → persist_one fs p a o ≡ ok o' → Adds a o o'
  unfolding persist_one
  persist_one-Adds (file f) o o' h =
      Kept→Adds (file f) o o' refl (persist_file-Kept _ (file_proto_file f) f.overwrite o o' h)
  persist_one-Adds (template_file f) o o' h =
      Kept→Adds (template_file f) o o' refl
        (persist_file-Kept _ (template_file_proto_file f) f.overwrite o o' h)
  persist_one-Adds (append f) o o' h =
      Kept→Adds (append f) o o' refl
        (persist_append-Kept (append f) (append_proto_file f) f.file_name o o' h)
  persist_one-Adds (template_append f) o o' h =
      Kept→Adds (template_append f) o o' refl
        (persist_append-Kept (template_append f) (template_append_proto_file f) f.file_name o o' h)
  persist_one-Adds (injection f) o o' h =
      Kept→Adds (injection f) o o' refl
        (persist_file-Kept (injection f) (injection_proto_file f) false o o' h)
  persist_one-Adds (template_injection f) o o' h =
      Kept→Adds (template_injection f) o o' refl
        (persist_file-Kept (template_injection f) (template_injection_proto_file f) false o o' h)
  persist_one-Adds (custom_file f) o o' h =
      Kept→Adds (custom_file f) o o' refl
        (persist_custom-Kept (custom_file f) (ok f.contents) f.name f.overwrite f.perms o o' h)
  persist_one-Adds (custom_template_file f) o o' h = Kept→Adds (custom_template_file f) o o' refl (
      persist_custom-Kept (custom_template_file f) (render_template f.template) f.name f.overwrite
        f.perms o o' h)
  persist_one-Adds (error e) o o' h =
      unfold add_errors in
      record {
        features = ap (λ (x : Output fs). x.response.supported_features) (sym (ok-injective h));
        message = ap (λ (x : Output fs). x.response.error) (sym (ok-injective h));
      }
  persist_one-Adds unrecognized o o' h = absurd (cc)

  persist_all-error :
      (arts : List Artifact) (o o' : Output fs)
      → persist_all fs p arts o ≡ ok o'
      → (o'.response.error ≡ add_errors o.response.error (messages arts))
        × (o'.response.supported_features ≡ o.response.supported_features)
  unfolding persist_all
  persist_all-error [] o o' h = (
    unfold add_errors in ap (λ (x : Output fs). x.response.error) (sym (ok-injective h)),
    ap (λ (x : Output fs). x.response.supported_features) (sym (ok-injective h)),
  )
  persist_all-error (a ∷ arts) o o' h =
      let (o₁, e, h₁) = bind-eq-ok (persist_one fs p a o) (persist_all fs p arts) h in
      let first = persist_one-Adds a o o₁ e in
      let (later, same) = persist_all-error arts o₁ o' h₁ in
      (
        later
            ∙ ap (λ x. add_errors x (messages arts)) first.message
            ∙ add_errors-messages a arts o.response.error,
        same ∙ first.features,
      )

  -- If a run of `Persist` ends without failure, the error of the response is the messages of all
  -- `GeneratorError` artifacts, in their order, joined by `; `, and unset if there is none; the
  -- supported features are the persister's.
  pub persist-error :
      (arts : List Artifact) (d : fs.Disk) (o : Output fs)
      → persist fs p arts d ≡ ok o
      → (o.response.error ≡ joined (messages arts))
        × (o.response.supported_features ≡ p.supported_features)
  unfolding persist
  persist-error arts d o h =
      let (e, f) = persist_all-error arts _ o h in (e ∙ add_errors-none (messages arts), f)
