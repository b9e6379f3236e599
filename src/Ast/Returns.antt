-- ===== src/Ast/Returns.antt =====
-- What the computations of ast.go return, when they end without failure.
use mathlib.Core.Path.{subst}
use protoc_gen_star.Base.{◌≡◌}
use protoc_gen_star.Ast.Graph.{Graph, done, Hydration, ◌>>=◌, return}
use protoc_gen_star.Ast.Leads.{done_value, bind-eq-done}

-- What a computation returns, when it does.
abbrev pub Returns : {A : Type 0} → Hydration A → (A → Type 0) → Type 0
Returns {A} m Q = (g g' : Graph) (a : A) → m g ≡ done a g' → Q a

pub Returns-return : {A : Type 0} (a : A) (Q : A → Type 0) → Q a → Returns (return a) Q
Returns-return a Q q g g' b h = subst Q (done_value h) q

pub Returns-bind :
    {A B : Type 0} (m : Hydration A) (k : A → Hydration B) (P : A → Type 0) (Q : B → Type 0)
    → Returns m P
    → ((a : A) → P a → Returns (k a) Q)
    → Returns (m >>= k) Q
Returns-bind m k P Q hm hk g g' b h =
    let (a, g₁, e, h') = bind-eq-done (m g) k h in hk a (hm g g₁ a e) g₁ g' b h'

-- Whatever the first one returns.
pub Returns-after :
    {A B : Type 0} (m : Hydration A) (k : A → Hydration B) (Q : B → Type 0)
    → ((a : A) → Returns (k a) Q)
    → Returns (m >>= k) Q
Returns-after m k Q hk = Returns-bind m k (λ a. Unit) Q (λ g g' a e. tt) (λ a u. hk a)
