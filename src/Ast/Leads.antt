-- ===== src/Ast/Leads.antt =====
-- What a computation adds to the entities of the graph, and how that composes.
use protoc_gen_star.Base.{
  nat_eq, Text, text_eq, insert, keys, keys-append, ℕ, ◌≡◌, refl, sym, ap, ◌∙◌, List, [], ◌∷◌, ◌++◌,
  append-nil,
}
use protoc_gen_star.Ast.Entity.{Kind, Ref}
use protoc_gen_star.Ast.Graph.{
  Graph, Outcome, done, failed, Hydration, continue_with, ◌>>=◌, return, allocate, each,
}
use protoc_gen_star.Ast.Entries.{Entries, collect, entry}

-- `g.entities` after these additions.
unfoldable pub insert_all : Entries → Entries → Entries
insert_all [] m = m
insert_all ((k, r) ∷ l) m = insert_all l (insert k r m)

pub insert_all-append : (l l' m : Entries) → insert_all (l ++ l') m ≡ insert_all l' (insert_all l m)
unfolding insert_all
insert_all-append [] l' m = refl
insert_all-append ((k, r) ∷ l) l' m = insert_all-append l l' (insert k r m)

-- A computation that ends with `a` has added entries `l` with `Q a l`.
abbrev pub Leads {ℓ} : {A : Type ℓ} → Hydration A → (A → Entries → Type 0) → Type ℓ
Leads {A} m Q =
    (g g' : Graph) (a : A)
    → m g ≡ done a g'
    → (l : Entries) × Q a l × (g'.entities ≡ insert_all l g.entities)

pub done_value {ℓ} : {A : Type ℓ} {a b : A} {g h : Graph} → done a g ≡ done b h → a ≡ b
done_value h = cc

pub done_graph {ℓ} : {A : Type ℓ} {a b : A} {g h : Graph} → done a g ≡ done b h → g ≡ h
done_graph h = cc

pub bind-eq-done {ℓ κ} :
    {A : Type ℓ} {B : Type κ} (o : Outcome A) (f : A → Hydration B) {b : B} {g' : Graph}
    → continue_with f o ≡ done b g'
    → (a : A) × (g : Graph) × (o ≡ done a g) × (f a g ≡ done b g')
bind-eq-done (done a g) f h = (a, g, refl, h)
bind-eq-done (failed e) f h = cc

pub Leads-return {ℓ} : {A : Type ℓ} (a : A) (Q : A → Entries → Type 0) → Q a [] → Leads (return a) Q
unfolding insert_all
Leads-return a Q q g g' b h =
    ([], rw (sym (done_value h)) q, ap Graph.entities (sym (done_graph h)))

pub Leads-bind {ℓ κ} :
    {A : Type ℓ} {B : Type κ} (m : Hydration A) (k : A → Hydration B) (Q : A → Entries → Type 0)
    (R : B → Entries → Type 0)
    → Leads m Q
    → ((a : A) (l : Entries) → Q a l → Leads (k a) (λ b l'. R b (l ++ l')))
    → Leads (m >>= k) R
Leads-bind m k Q R hm hk g g' b h =
    let (a, g1, ha, hb) = bind-eq-done (m g) k h in
    let (l, q, e) = hm g g1 a ha in
    let (l', r, e') = hk a l q g1 g' b hb in
    (l ++ l', r, rw (insert_all-append l l' g.entities, sym e) e')

-- A computation that leaves the entities alone.
abbrev pub Keeps {ℓ} : {A : Type ℓ} → Hydration A → Type ℓ
Keeps {A} m = (g g' : Graph) (a : A) → m g ≡ done a g' → g'.entities ≡ g.entities

pub Keeps-bind {ℓ κ} :
    {A : Type ℓ} {B : Type κ} (m : Hydration A) (k : A → Hydration B)
    → Keeps m
    → ((a : A) → Keeps (k a))
    → Keeps (m >>= k)
Keeps-bind m k hm hk g g' b h =
    let (a, g1, ha, hb) = bind-eq-done (m g) k h in hk a g1 g' b hb ∙ hm g g1 a ha

pub Leads-keep {ℓ κ} :
    {A : Type ℓ} {B : Type κ} (m : Hydration A) (k : A → Hydration B) (R : B → Entries → Type 0)
    → Keeps m
    → ((a : A) → Leads (k a) R)
    → Leads (m >>= k) R
Leads-keep m k R hm hk g g' b h =
    let (a, g1, ha, hb) = bind-eq-done (m g) k h in
    let (l, r, e) = hk a g1 g' b hb in (l, r, e ∙ ap (insert_all l) (hm g g1 a ha))

pub Leads-allocate {ℓ} :
    {A : Type ℓ} (key : Text) (c : Kind) (k : ℕ → Hydration A) (R : A → Entries → Type 0)
    → ((id : ℕ) → Leads (k id) (λ a l. R a (entry key c id ∷ l)))
    → Leads (allocate key c >>= k) R
unfolding insert_all
Leads-allocate key c k R hk g g' b h =
    let (l, r, e) = hk g.next _ g' b h in (entry key c g.next ∷ l, r, e)

pub Leads-map {ℓ κ} :
    {A : Type ℓ} {B : Type κ} (m : Hydration A) (f : A → B) (Q : A → Entries → Type 0)
    (R : B → Entries → Type 0)
    → Leads m Q
    → ((a : A) (l : Entries) → Q a l → R (f a) l)
    → Leads (m >>= (λ a. return (f a))) R
Leads-map m f Q R hm hf g g' b h =
    let (a, g1, ha, hb) = bind-eq-done (m g) (λ a. return (f a)) h in
    let (l, q, e) = hm g g1 a ha in
    (l, rw (sym (done_value hb)) (hf a l q), rw (sym (done_graph hb)) e)

-- These entries, under these names.
abbrev pub Same : Entries → Entries → List Text → Type 0
Same l es ns = (l ≡ es) × (keys l ≡ ns)

pub Same-append :
    {l l' es es' : Entries} {ns ns' : List Text}
    → Same l es ns
    → Same l' es' ns'
    → Same (l ++ l') (es ++ es') (ns ++ ns')
Same-append {l} {l'} (p, q) (p', q') = (rw (p, p') refl, rw (keys-append l l', q, q') refl)

pub Same-cons :
    {l es : Entries} {ns : List Text} (k : Text) (r : Ref)
    → Same l es ns
    → Same ((k, r) ∷ l) ((k, r) ∷ es) (k ∷ ns)
Same-cons k r (p, q) = (ap ((k, r) ∷◌) p, ap (k ∷◌) q)

pub Same-end : {l es : Entries} {ns : List Text} → Same l es ns → Same (l ++ []) es ns
Same-end {l} h = rw (append-nil l) h

-- The entries of the entity that was made, under the names of its descriptor.
abbrev pub Made {ℓ} : {A : Type ℓ} → (A → Entries) → List Text → A → Entries → Type 0
Made es ns a l = Same l (es a) ns

pub Leads-each {ℓ κ} :
    {D : Type ℓ} {A : Type κ} (f : D → Hydration A) (es : A → Entries) (ns : D → List Text)
    → ((d : D) → Leads (f d) (Made es (ns d)))
    → (ds : List D) → Leads (each f ds) (Made (collect es) (collect ns ds))
unfolding each
Leads-each f es ns hf [] = Leads-return [] (Made (collect es) []) (refl, refl)
Leads-each f es ns hf (d ∷ ds) =
    Leads-bind (f d) _ (Made es (ns d)) (Made (collect es) (collect ns (d ∷ ds))) (hf d) (λ a l q.
      Leads-map (each f ds) (a ∷◌) (Made (collect es) (collect ns ds)) _ (Leads-each f es ns hf ds)
        (λ xs l' q'. Same-append q q'))

-- An object without parts.
pub Leads-single {ℓ} :
    {A : Type ℓ} (key : Text) (c : Kind) (f : ℕ → A) (es : A → Entries)
    → ((id : ℕ) → es (f id) ≡ entry key c id ∷ [])
    → Leads (allocate key c >>= (λ id. return (f id))) (Made es (key ∷ []))
Leads-single key c f es h = Leads-allocate key c _ (Made es (key ∷ [])) (λ id.
    Leads-return (f id) (λ a l. Made es (key ∷ []) a (entry key c id ∷ l)) (sym (h id), refl))

-- An object with one kind of parts.
pub Leads-owner {ℓ κ} :
    {A : Type ℓ} {B : Type κ} (key : Text) (c : Kind) (m : Hydration B) (f : ℕ → B → A)
    (es : A → Entries) (es' : B → Entries) (ns : List Text)
    → ((id : ℕ) (b : B) → es (f id b) ≡ entry key c id ∷ es' b)
    → Leads m (Made es' ns)
    → Leads (allocate key c >>= (λ id. m >>= (λ b. return (f id b)))) (Made es (key ∷ ns))
Leads-owner key c m f es es' ns h hm = Leads-allocate key c _ (Made es (key ∷ ns)) (λ id.
    Leads-map m (f id) (Made es' ns) _ hm (λ b l q. (rw (h id b, q.0) refl, ap (key ∷◌) q.1)))
