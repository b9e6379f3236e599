-- ===== src/Workflow/Plugin.antt =====
-- workflow.go: a whole run of the standard workflow with the persister of persister.go, from the
-- input to what is written to protoc.
use protoc_gen_star.Base.{
  ◌==◌, nat_eq, nat_beq_iff, Text, length, ℕ, ◌≡◌, refl, sym, ap, ◌∙◌, Bool, true, false, Option,
  none, some, List, [], ◌∷◌, ◌++◌, append-nil, append_assoc,
}
use protoc_gen_star.Parameters.{Parameters, output_path}
use protoc_gen_star.Context.{context}
use protoc_gen_star.Artifact.{Artifact, Result, err, ok}
use protoc_gen_star.Persister.{FileSystem, Persister, Response, Output, persist}
use protoc_gen_star.Persister.Groups.{Group}
use protoc_gen_star.Persister.Runs.{groups_all}
use protoc_gen_star.Persister.Refine.{Shows, persist-Shows}
use protoc_gen_star.Ast.Descriptor.{Request}
use protoc_gen_star.Ast.Graph.{Package}
use protoc_gen_star.Workflow.{Module, init_modules, execute_modules, standard_run}
use protoc_gen_star.Workflow.Standard.{
  Stop, Progress, stopped, reached, ◌>>=◌, check, assert, persisted, Gathered, standard_init,
  standard_persist, marshal_failed, write_failed, short_write,
}

-- What a run keeps of a `Generator`, with modules whose state is `W`.
pub record Generator (W : Type 0) : Type 0 where
  pub bidirectional : Bool
  pub mutators : List (Parameters → Parameters)
  pub persister : Persister
  pub mods : List (Module W Gathered Artifact)

abbrev pub joined : List (List Artifact) → List Artifact
joined [] = []
joined (l ∷ ls) = l ++ joined ls

module _ {W : Type 0} where
  -- The artifacts of each module, in the order of the modules.
  abbrev pub outputs : Gathered → List (Module W Gathered Artifact) → W → List (List Artifact)
  outputs ast [] w = []
  outputs ast (m ∷ ms) w = (m.execute ast w).0 ∷ outputs ast ms (m.execute ast w).1

  execute_modules-outputs :
      (ast : Gathered) (ms : List (Module W Gathered Artifact)) (arts : List Artifact) (w : W)
      → (execute_modules ast ms arts w).0 ≡ arts ++ joined (outputs ast ms w)
  unfolding execute_modules
  execute_modules-outputs ast [] arts w = sym (append-nil arts)
  execute_modules-outputs ast (m ∷ ms) arts w =
      execute_modules-outputs ast ms (arts ++ (m.execute ast w).0) (m.execute ast w).1
      ∙ append_assoc arts (m.execute ast w).0 (joined (outputs ast ms (m.execute ast w).1))

  -- Every module has been given its context, under its own name, before any is executed.
  abbrev pub captured : Generator W → Parameters → Gathered → W → List Artifact
  captured gen params ast w =
      joined (outputs ast gen.mods (init_modules (context params (output_path params)) gen.mods w))

  standard_run-captured :
      (gen : Generator W) (params : Parameters) (ast : Gathered) (w : W)
      → (standard_run params gen.mods ast w).0 ≡ captured gen params ast w
  unfolding standard_run
  standard_run-captured gen params ast w = execute_modules-outputs ast gen.mods [] _

pub reached-injective {ℓ} : {T : Type ℓ} {a b : T} → reached a ≡ reached b → a ≡ b
reached-injective h = cc

pub bind-eq-reached {ℓ κ} :
    {S : Type ℓ} {T : Type κ} (m : Progress S) (f : S → Progress T) {t : T}
    → (m >>= f) ≡ reached t
    → (s : S) × (m ≡ reached s) × (f s ≡ reached t)
bind-eq-reached (reached s) f h = (s, refl, h)
bind-eq-reached (stopped e) f h = cc

check-eq-reached {ℓ} :
    {T : Type ℓ} (e : Stop) (o : Option T) {t : T} → check e o ≡ reached t → o ≡ some t
check-eq-reached e none h = cc
check-eq-reached e (some t) h = ap some (reached-injective h)

assert-eq-reached : (e : Stop) (b : Bool) {u : Unit {0}} → assert e b ≡ reached u → b ≡ true
assert-eq-reached e true h = refl
assert-eq-reached e false h = cc

persisted-eq-reached : {T : Type 0} (r : Result T) {t : T} → persisted r ≡ reached t → r ≡ ok t
persisted-eq-reached (ok t) h = ap ok (reached-injective h)
persisted-eq-reached (err e) h = cc

-- A `Persist` that gets to its end has written all of the encoding.
standard_persist-reached :
    {T W : Type 0} (marshal : T → Option (List ℕ)) (write : List ℕ → W → Option (ℕ × W))
    (r : Result T) (w w' : W)
    → standard_persist marshal write r w ≡ reached w'
    → (t : T) × (bytes : List ℕ) × (r ≡ ok t)
      × (marshal t ≡ some bytes)
      × (write bytes w ≡ some (length bytes, w'))
unfolding standard_persist
standard_persist-reached marshal write r w w' h =
    let (t, e₁, h₁) =
      bind-eq-reached (persisted r)
        (λ t. check marshal_failed (marshal t) >>= (λ bytes.
          check write_failed (write bytes w)
          >>= (λ n. assert short_write (length bytes == n.0) >>= (λ u. reached n.1))))
        h in
    let (bytes, e₂, h₂) =
      bind-eq-reached (check marshal_failed (marshal t))
        (λ bytes.
          check write_failed (write bytes w)
          >>= (λ n. assert short_write (length bytes == n.0) >>= (λ u. reached n.1)))
        h₁ in
    let (n, e₃, h₃) =
      bind-eq-reached (check write_failed (write bytes w))
        (λ n. assert short_write (length bytes == n.0) >>= (λ u. reached n.1)) h₂ in
    let (u, e₄, h₄) =
      bind-eq-reached (assert short_write (length bytes == n.0)) (λ u. reached n.1) h₃ in
    let all : length bytes ≡ n.0 =
      (nat_beq_iff (length bytes) n.0).0 (assert-eq-reached short_write _ e₄) in
    (
      t,
      bytes,
      persisted-eq-reached r e₁,
      check-eq-reached marshal_failed (marshal t) e₂,
      check-eq-reached write_failed (write bytes w) e₃
          ∙ ap (λ k. some (k, n.1)) (sym all)
          ∙ ap (λ x. some (length bytes, x)) (reached-injective h₄),
    )

module _ (fs : FileSystem) (order : List (Text × Package) → List Package) {D W Out : Type 0}
    (unmarshal : D → Option (Request × Text)) (marshal : Response → Option (List ℕ))
    (write : List ℕ → Out → Option (ℕ × Out)) (gen : Generator W) (input : Option D)
    (disk : fs.Disk) (w : W) (out : Out) where
  abbrev encode : Output fs → Option (List ℕ)
  encode o = marshal o.response

  -- The methods of `standardWorkflow` one after another, as `Render` calls them: on the input, the
  -- disk, the state of the modules, and the output.
  unfoldable pub plugin_run : Progress Out
  unfolding standard_init standard_run standard_persist persist
  plugin_run = do
    start ← standard_init order gen.bidirectional gen.mutators unmarshal input
    let arts = (standard_run start.0 gen.mods start.1 w).0
    standard_persist encode write (persist fs gen.persister arts disk) out

  -- What protoc is sent: the encoding of a response whose files are the groups that the artifacts
  -- of all modules make, one after another.
  pub record Delivers (out' : Out) : Type 0 where
    pub params : Parameters
    pub ast : Gathered
    pub result : Output fs
    pub groups : List Group
    pub bytes : List ℕ
    pub started :
        standard_init order gen.bidirectional gen.mutators unmarshal input ≡ reached (params, ast)
    pub grouped : groups_all gen.persister (captured gen params ast w) [] ≡ ok groups
    pub shows : Shows fs gen.persister result groups
    pub encoded : marshal result.response ≡ some bytes
    pub sent : write bytes out ≡ some (length bytes, out')

  -- Where a whole run gets to its end, the input was read and made a graph, and what protoc was
  -- sent, to its last byte, is the encoding of a response whose files are the groups of files that
  -- the artifacts of all modules make, one module after another in the order of registration.
  pub plugin_run-Delivers : (out' : Out) → plugin_run ≡ reached out' → Delivers out'
  unfolding plugin_run
  plugin_run-Delivers out' h =
      let ((params, ast), e₁, h₁) =
        bind-eq-reached (standard_init order gen.bidirectional gen.mutators unmarshal input)
          (λ start.
            standard_persist encode write
              (persist fs gen.persister (standard_run start.0 gen.mods start.1 w).0 disk) out)
          h in
      let arts = (standard_run params gen.mods ast w).0 in
      let (o, bytes, e₂, e₃, e₄) =
        standard_persist-reached encode write (persist fs gen.persister arts disk) out out' h₁ in
      let (gs, e₅, shows) = persist-Shows fs gen.persister arts disk o e₂ in
      record {
        params = params;
        ast = ast;
        result = o;
        groups = gs;
        bytes = bytes;
        started = e₁;
        grouped =
            ap (λ l. groups_all gen.persister l []) (sym (standard_run-captured gen params ast w))
            ∙ e₅;
        shows = shows;
        encoded = e₃;
        sent = e₄;
      }
