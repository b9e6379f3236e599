-- ===== src/Parameters/Plugins.antt =====
-- Which plugins are enabled once `AddPlugin` has added some.
use protoc_gen_star.Base.{
  if◌then◌else◌, Bool-cases, ◌==◌, nat_eq, Text, text_eq, All, All-append, lookup,
  lookup-insert_self, ◌≡◌, refl, sym, ap, ◌∙◌, ◌≢◌, inl, inr, Bool, true, false, ◌||◌, Option, none,
  some, List, [], ◌∷◌, ◌++◌,
}
use protoc_gen_star.Text.{split, join}
use protoc_gen_star.Text.Split.{Lacks, split-Lacks, split-join}
use protoc_gen_star.Parameters.{
  Parameters, plus, set_str, plugins_key, plugins_of, plugins, is_in, has_plugin, add_plugin,
}

or_assoc : (a b c : Bool) → (a || (b || c)) ≡ ((a || b) || c)
or_assoc true b c = refl
or_assoc false b c = refl

is_in-append : (n : Text) (xs ys : List Text) → is_in n (xs ++ ys) ≡ (is_in n xs || is_in n ys)
is_in-append n [] ys = refl
is_in-append n (x ∷ xs) ys =
    ap (λ b. (x == n) || b) (is_in-append n xs ys) ∙ or_assoc (x == n) (is_in n xs) (is_in n ys)

-- A list that is not a single empty text joins to a text that is not empty.
join-ne-nil : (ps : List Text) → ps ≢ [] → ps ≢ [] ∷ [] → join (plus ∷ []) ps ≢ []
unfolding join
join-ne-nil [] ne _ h = ne refl
join-ne-nil ([] ∷ []) _ ne h = ne refl
join-ne-nil ((c ∷ p) ∷ []) _ _ h = cc h
join-ne-nil ([] ∷ q ∷ ps) _ _ h = cc h
join-ne-nil ((c ∷ p) ∷ q ∷ ps) _ _ h = cc h

plugins_of-ne-nil : (s : Text) → s ≢ [] → plugins_of (some s) ≡ (split plus s, false)
plugins_of-ne-nil [] ne = absurd (ne refl)
plugins_of-ne-nil (c ∷ s) ne = refl

plugins_of-Lacks : (o : Option Text) → All (Lacks plus) (plugins_of o).0
plugins_of-Lacks none = tt
plugins_of-Lacks (some []) = tt
plugins_of-Lacks (some (c ∷ s)) = split-Lacks plus (c ∷ s)

split-joined :
    (ps : List Text) → ps ≢ [] → All (Lacks plus) ps → split plus (join (plus ∷ []) ps) ≡ ps
split-joined [] ne h = absurd (ne refl)
split-joined (p ∷ ps) ne (h, hs) = split-join plus p ps h hs

append-ne-nil : (xs : List Text) (y : Text) (ys : List Text) → xs ++ y ∷ ys ≢ []
append-ne-nil [] y ys h = cc h
append-ne-nil (x ∷ xs) y ys h = cc h

plugins-set :
    (p : Parameters) (ps : List Text)
    → ps ≢ []
    → ps ≢ [] ∷ []
    → All (Lacks plus) ps
    → plugins (set_str p plugins_key (join (plus ∷ []) ps)) ≡ (ps, false)
plugins-set p ps ne ne' h =
    ap plugins_of (lookup-insert_self plugins_key (join (plus ∷ []) ps) p)
    ∙ plugins_of-ne-nil _ (join-ne-nil ps ne ne')
    ∙ ap (λ x. (x, false)) (split-joined ps ne h)

-- Once `AddPlugin` has added names without `+`, a plugin is enabled exactly if it was enabled
-- before or is one of these names; unless nothing was enabled and the empty name alone is added.
pub has_plugin-add_plugin :
    (p : Parameters) (name : Text) (names : List Text) (n : Text)
    → All (Lacks plus) (name ∷ names)
    → (plugins p).0 ++ name ∷ names ≢ [] ∷ []
    → has_plugin (add_plugin p (name ∷ names)) n ≡ (has_plugin p n || is_in n (name ∷ names))
has_plugin-add_plugin p name names n h ne =
    let added : Text = join (plus ∷ []) ((plugins p).0 ++ name ∷ names) in
    elim (Bool-cases (plugins p).1) [
      | inl eq ↦
          ap (λ c. has_plugin (if c then p else set_str p plugins_key added) n) eq
          ∙ ap (λ c. if c then true else is_in n (plugins p).0) eq
          ∙ ap (λ c. (if c then true else is_in n (plugins p).0) || is_in n (name ∷ names)) (sym eq)
      | inr eq ↦
          ap (λ c. has_plugin (if c then p else set_str p plugins_key added) n) eq
          ∙ ap (λ (x : List Text × Bool). if x.1 then true else is_in n x.0)
              (plugins-set p _ (append-ne-nil (plugins p).0 name names) ne (
                All-append (Lacks plus) (plugins p).0 (name ∷ names)
                  (plugins_of-Lacks (lookup plugins_key p)) h))
          ∙ is_in-append n (plugins p).0 (name ∷ names)
          ∙ ap (λ c. (if c then true else is_in n (plugins p).0) || is_in n (name ∷ names)) (sym eq)
    ]

-- `AddPlugin` with the empty name alone, where no plugin is enabled, enables every plugin.
pub add_plugin_empty :
    (p : Parameters) (n : Text)
    → lookup plugins_key p ≡ none
    → (has_plugin p n ≡ false) × (has_plugin (add_plugin p ([] ∷ [])) n ≡ true)
unfolding join
add_plugin_empty p n h = (
  rw h refl,
  ap
        (λ o.
          has_plugin
            (if (plugins_of o).1
              then p
              else set_str p plugins_key (join (plus ∷ []) ((plugins_of o).0 ++ [] ∷ [])))
            n)
        h
      ∙ ap (λ o. if (plugins_of o).1 then true else is_in n (plugins_of o).0)
          (lookup-insert_self plugins_key [] p),
)
