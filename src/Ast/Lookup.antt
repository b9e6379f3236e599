-- ===== src/Ast/Lookup.antt =====
-- What `Lookup` finds in a graph that `ProcessCodeGeneratorRequest` has built.
use mathlib.Core.Path.{subst}
use protoc_gen_star.Base.{
  if◌then◌else◌, ◌==◌, nat_eq, Text, text_eq, beq_false, All, is_some, lookup, insert,
  lookup-insert, lookup-insert_self, keys, ◌≡◌, refl, sym, ap, ◌∙◌, ◌≢◌, Bool, true, false, ◌||◌,
  Option, some, List, [], ◌∷◌, ◌++◌,
}
use protoc_gen_star.Ast.Descriptor.{Request}
use protoc_gen_star.Ast.Entity.{Ref, File}
use protoc_gen_star.Ast.Graph.{Graph, done}
use protoc_gen_star.Ast.Process.{hydrate_files, connect_extensions, new_graph, process_request}
use protoc_gen_star.Ast.Entries.{Entries, collect, file_entries, file_names}
use protoc_gen_star.Ast.Leads.{
  insert_all, Leads-return, Leads-bind, Leads-keep, Same, Same-end, Made,
}
use protoc_gen_star.Ast.Keeps.{connect_extensions-Keeps}
use protoc_gen_star.Ast.Names.{hydrate_files-Made}

abbrev pub is_in : Text → List Text → Bool
is_in x [] = false
is_in x (y ∷ ys) = y == x || is_in x ys

abbrev pub Distinct {ℓ} : {A : Type ℓ} → List A → Type ℓ
Distinct [] = Unit
Distinct (x ∷ xs) = All (λ y. y ≢ x) xs × Distinct xs

is_some-if :
    (c : Bool) (r : Ref) (o : Option Ref) → is_some (if c then some r else o) ≡ (c || is_some o)
is_some-if true r o = refl
is_some-if false r o = refl

or_swap : (a b c : Bool) → (a || (b || c)) ≡ ((b || a) || c)
or_swap true true c = refl
or_swap true false c = refl
or_swap false true c = refl
or_swap false false c = refl

or_false : (a : Bool) → (a || false) ≡ a
or_false true = refl
or_false false = refl

is_some-insert :
    (k j : Text) (r : Ref) (m : Entries)
    → is_some (lookup j (insert k r m)) ≡ (k == j || is_some (lookup j m))
is_some-insert k j r m = ap is_some (lookup-insert k j r m) ∙ is_some-if (k == j) r (lookup j m)

is_some-insert_all :
    (l m : Entries) (k : Text)
    → is_some (lookup k (insert_all l m)) ≡ (is_in k (keys l) || is_some (lookup k m))
unfolding insert_all
is_some-insert_all [] m k = refl
is_some-insert_all ((j, r) ∷ l) m k =
    is_some-insert_all l (insert j r m) k
    ∙ ap (λ x. is_in k (keys l) || x) (is_some-insert j k r m)
    ∙ or_swap (is_in k (keys l)) (j == k) (is_some (lookup k m))

lookup-insert_all_other :
    (l m : Entries) (k : Text) → All (λ y. y ≢ k) (keys l) → lookup k (insert_all l m) ≡ lookup k m
unfolding insert_all
lookup-insert_all_other [] m k h = refl
lookup-insert_all_other ((j, r) ∷ l) m k (ne, h) =
    lookup-insert_all_other l (insert j r m) k h
    ∙ lookup-insert j k r m
    ∙ ap (λ c. if c then some r else lookup k m) (beq_false j k ne)

lookup-insert_all :
    (l m : Entries) → Distinct (keys l) → All (λ e. lookup e.0 (insert_all l m) ≡ some e.1) l
unfolding insert_all
lookup-insert_all [] m h = tt
lookup-insert_all ((j, r) ∷ l) m (ne, h) = (
  lookup-insert_all_other l (insert j r m) j ne ∙ lookup-insert_self j r m,
  lookup-insert_all l (insert j r m) h,
)

names_found :
    (l m : Entries) (ns : List Text) (k : Text)
    → keys l ≡ ns
    → m ≡ insert_all l []
    → is_some (lookup k m) ≡ is_in k ns
unfolding lookup
names_found l m ns k q e =
    ap (λ x. is_some (lookup k x)) e
    ∙ is_some-insert_all l [] k
    ∙ or_false (is_in k (keys l))
    ∙ ap (is_in k) q

entries_found :
    (l es m : Entries) (ns : List Text)
    → Same l es ns
    → m ≡ insert_all l []
    → Distinct ns
    → All (λ e. lookup e.0 m ≡ some e.1) es
entries_found l es m ns (p, q) e d =
    let found : All (λ x. lookup x.0 (insert_all l []) ≡ some x.1) l =
      lookup-insert_all l [] (subst Distinct (sym q) d) in
    subst (λ x. All (λ y. lookup y.0 m ≡ some y.1) x) p
      (subst (λ x. All (λ y. lookup y.0 x ≡ some y.1) l) (sym e) found)

-- The entities of a graph that was built are those of its files.
pub process_request-entities :
    (req : Request) (fls : List File) (g : Graph)
    → process_request req ≡ done fls g
    → (l : Entries) × Same l (collect file_entries fls) (collect file_names req.proto_files)
      × (g.entities ≡ insert_all l [])
unfolding process_request new_graph
process_request-entities req fls g h =
    Leads-bind (hydrate_files req.proto_files) _ _
      (Made (collect file_entries) (collect file_names req.proto_files))
      (hydrate_files-Made req.proto_files)
      (λ fls l q.
        Leads-keep (λ g. connect_extensions g.extensions g) _
          (λ x l'. Made (collect file_entries) (collect file_names req.proto_files) x (l ++ l'))
          (λ g. connect_extensions-Keeps g.extensions g) (λ u. Leads-return fls _ (Same-end q)))
      (new_graph req) g fls h

-- If `ProcessCodeGeneratorRequest` ends without failure, `Lookup` finds a name exactly if it is a
-- file of the request or the fully-qualified name of something that one of these files declares.
pub process_request-names :
    (req : Request) (fls : List File) (g : Graph) (k : Text)
    → process_request req ≡ done fls g
    → is_some (lookup k g.entities) ≡ is_in k (collect file_names req.proto_files)
process_request-names req fls g k h =
    let (l, q, e) = process_request-entities req fls g h in
    names_found l g.entities (collect file_names req.proto_files) k q.1 e

-- If `ProcessCodeGeneratorRequest` ends without failure, on files whose names and whose entities'
-- names are all different, `Lookup` of the name of each entity in the trees of the files finds
-- that very entity, with its kind.
pub process_request-finds :
    (req : Request) (fls : List File) (g : Graph)
    → process_request req ≡ done fls g
    → Distinct (collect file_names req.proto_files)
    → All (λ e. lookup e.0 g.entities ≡ some e.1) (collect file_entries fls)
process_request-finds req fls g h d =
    let (l, q, e) = process_request-entities req fls g h in
    entries_found l (collect file_entries fls) g.entities (collect file_names req.proto_files) q e d
