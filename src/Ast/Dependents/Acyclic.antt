-- ===== src/Ast/Dependents/Acyclic.antt =====
-- Where no message uses itself through others, the caches hold all that they should.
use mathlib.Core.List.Memᴰ
use mathlib.Core.Path.{subst}
use protoc_gen_star.Base.{
  Bool-cases, Option-cases, ◌==◌, nat_eq, Text, text_eq, ne_of_beq, length, is_some, lookup, insert,
  lookup-insert_self, ℕ, zero, suc, ◌≤◌, ◌<◌, ◌≡◌, refl, sym, ap, ◌∙◌, ◌≢◌, ◌⊎◌, inl, inr, true,
  Option, none, some, List, [], ◌∷◌, Memᴰ, arith,
}
use protoc_gen_star.Ast.Dependents.{
  Caches, direct, cache_of, set_name, copy_names, fill, populate_cache,
}
use protoc_gen_star.Ast.Dependents.Steps.{populate_cache-some, populate_cache-none}
use protoc_gen_star.Ast.Dependents.Bound.{has_cache, populate_cache-length}
use protoc_gen_star.Ast.Dependents.Reached.{Reaches, directly, onward, populate_cache-AllEntries}
use protoc_gen_star.Ast.Dependents.Named.{
  Has, insert-SameBut, set_name-SameBut, set_name-Has, set_name-Grows, copy_names-SameBut,
  copy_names-Grows, copy_names-Has, set_name-has_cache, copy_names-has_cache, Has-same,
}
use protoc_gen_star.Ast.Dependents.Filled.{
  Downward, direct-Downward, IfSome, IfSome-then, IfSome-map, Full, Exact, FullBut, FullBut-change,
  Called, Looped,
}

module _ (fqn : ℕ → Text) (us : List (ℕ × ℕ)) (rank : ℕ → ℕ) (downward : Downward rank us) where
  down : (m d : ℕ) → Memᴰ d (direct us m) → rank d < rank m
  down m d i = direct-Downward rank us m d downward i

  Above-ne : (m x : ℕ) → rank m < rank x → x ≢ m
  Above-ne m x l e = let impossible : ⊥ = omega (arith, l, ap rank e) in impossible

  -- The call on `d` and the copying of its names, as a step of the loop at `m`.
  step-Looped :
      (P : ℕ → Type 0) (m d : ℕ) (c c₁ : Caches)
      → P m
      → Memᴰ d (direct us m)
      → ((x : ℕ) → P x → rank d < rank x)
      → Called fqn us rank P d (set_name m (fqn d) d c) c₁
      → Looped fqn us rank P m (d ∷ []) c (copy_names m (cache_of d c₁) c₁)
  step-Looped P m d c c₁ pm edge higher h =
      let named_m = h.above m (down m d edge) in
      let d_full =
        h.others_full d h.cached
          (λ pd. let impossible : ⊥ = omega (arith, higher d pd) in impossible) in
      record {
        called = record {
          cached =
              copy_names-has_cache m (cache_of d c₁) c₁
                (ap is_some named_m ∙ set_name-has_cache m (fqn d) d c);
          others_full =
              FullBut-change fqn us P m c₁ _ pm (copy_names-SameBut m (cache_of d c₁) c₁)
                h.others_full;
          above = λ x l.
              copy_names-SameBut m (cache_of d c₁) c₁ x (Above-ne m x l)
              ∙ h.above x (omega (arith, l, down m d edge))
              ∙ set_name-SameBut m (fqn d) d c x (Above-ne m x l);
        };
        grows = λ name has.
            copy_names-Grows m (cache_of d c₁) c₁ name
              (Has-same m name _ c₁ named_m (set_name-Grows m (fqn d) d c name has));
        named = λ d' i.
            subst (λ y. Has m (fqn y) (copy_names m (cache_of d c₁) c₁))
              (sym (Memᴰ.eq_of_singleton i))
              (copy_names-Grows m (cache_of d c₁) c₁ (fqn d)
                (Has-same m (fqn d) _ c₁ named_m (set_name-Has m (fqn d) d c)));
        below = λ d' e i r.
            copy_names-Has m (cache_of d c₁) c₁ (fqn e)
              (d_full e (subst (λ y. Reaches us y e) (Memᴰ.eq_of_singleton i) r));
      }

  Looped-cons :
      (P : ℕ → Type 0) (m d : ℕ) (ds : List ℕ) (c c₁ c₂ : Caches)
      → Looped fqn us rank P m (d ∷ []) c c₁
      → Looped fqn us rank P m ds c₁ c₂
      → Looped fqn us rank P m (d ∷ ds) c c₂
  Looped-cons P m d ds c c₁ c₂ first rest = record {
    called = record {
      cached = rest.called.cached;
      others_full = rest.called.others_full;
      above = λ x l. rest.called.above x l ∙ first.called.above x l;
    };
    grows = λ name has. rest.grows name (first.grows name has);
    named = λ d' i. elim (Memᴰ.cases_cons i) [
      | inl e ↦ rest.grows (fqn d') (first.named d' (Memᴰ.head e))
      | inr j ↦ rest.named d' j
    ];
    below = λ d' e i r. elim (Memᴰ.cases_cons i) [
      | inl eq ↦ rest.grows (fqn e) (first.below d' e (Memᴰ.head eq) r)
      | inr j ↦ rest.below d' e j r
    ];
  }

  fill-Looped :
      (populate : ℕ → Caches → Option Caches) (P : ℕ → Type 0) (m : ℕ) (ds : List ℕ) (c : Caches)
      → P m
      → ((x : ℕ) → P x → rank m ≤ rank x)
      → ((d : ℕ) (c' : Caches)
          → Memᴰ d (direct us m)
          → FullBut fqn us P c'
          → IfSome (Called fqn us rank P d c') (populate d c'))
      → ((d : ℕ) → Memᴰ d ds → Memᴰ d (direct us m))
      → has_cache m c ≡ true
      → FullBut fqn us P c
      → IfSome (Looped fqn us rank P m ds c) (fill fqn populate m ds c)
  unfolding fill
  fill-Looped populate P m [] c pm low hp sub cached h = record {
    called = record { cached = cached; others_full = h; above = λ x l. refl };
    grows = λ name has. has;
    named = λ d i. absurd (Memᴰ.not-nil i);
    below = λ d e i r. absurd (Memᴰ.not-nil i);
  }
  fill-Looped populate P m (d ∷ ds) c pm low hp sub cached h =
      let edge = sub d (Memᴰ.head refl) in
      let named = FullBut-change fqn us P m c _ pm (set_name-SameBut m (fqn d) d c) h in
      IfSome-then (Called fqn us rank P d (set_name m (fqn d) d c))
        (Looped fqn us rank P m (d ∷ ds) c) (populate d (set_name m (fqn d) d c)) _
        (hp d (set_name m (fqn d) d c) edge named)
        (λ c₁ called.
          let first =
            step-Looped P m d c c₁ pm edge (λ x px. omega (arith, low x px, down m d edge))
              called in
          IfSome-map (Looped fqn us rank P m ds (copy_names m (cache_of d c₁) c₁))
            (Looped fqn us rank P m (d ∷ ds) c) _
            (λ c₂ rest. Looped-cons P m d ds c _ c₂ first rest)
            (fill-Looped populate P m ds (copy_names m (cache_of d c₁) c₁) pm low hp
              (λ e i. sub e (Memᴰ.tail i)) first.called.cached first.called.others_full))

  insert-FullBut :
      (P : ℕ → Type 0) (m : ℕ) (c : Caches)
      → FullBut fqn us P c
      → FullBut fqn us (λ x. P x ⊎ (x ≡ m)) (insert m [] c)
  insert-FullBut P m c h = λ x cached np d r.
      let same = insert-SameBut m [] c x (λ e. np (inr e)) in
      Has-same x (fqn d) c (insert m [] c) same
        (h x (ap is_some (sym same) ∙ cached) (λ px. np (inl px)) d r)

  -- Of what a message reaches, some is an element of its list and the rest is reached from one.
  Looped-Full :
      (P : ℕ → Type 0) (m : ℕ) (c c' : Caches)
      → Looped fqn us rank P m (direct us m) c c'
      → Full fqn us m c'
  Looped-Full P m c c' h d (directly i) = h.named d i
  Looped-Full P m c c' h e (onward {d = d} i r) = h.below d e i r

  Looped-Called :
      (P : ℕ → Type 0) (m : ℕ) (c c' : Caches)
      → Looped fqn us rank (λ x. P x ⊎ (x ≡ m)) m (direct us m) (insert m [] c) c'
      → Called fqn us rank P m c c'
  Looped-Called P m c c' h = record {
    cached = h.called.cached;
    others_full = λ x cached np. elim (Bool-cases (x == m)) [
      | inl e ↦
          subst (λ y. Full fqn us y c') (sym ((nat_eq.beq_iff x m).0 e)) (Looped-Full _ m _ c' h)
      | inr ne ↦
          h.called.others_full x cached
            (λ o. elim o [ inl px ↦ np px | inr e ↦ ne_of_beq x m ne e ])
    ];
    above = λ x l. h.called.above x l ∙ insert-SameBut m [] c x (Above-ne m x l);
  }

  populate_cache-Called :
      (n m : ℕ) (P : ℕ → Type 0) (c : Caches)
      → ((x : ℕ) → P x → rank m < rank x)
      → FullBut fqn us P c
      → IfSome (Called fqn us rank P m c) (populate_cache fqn us n m c)
  unfolding populate_cache
  populate_cache-Called zero m P c higher h = tt
  populate_cache-Called (suc n) m P c higher h = elim (Option-cases (lookup m c)) [
    | inl e ↦
        let Q : ℕ → Type 0 = λ x. P x ⊎ (x ≡ m) in
        let low : (x : ℕ) → Q x → rank m ≤ rank x = λ x q. elim q [
          | inl px ↦ omega (arith, higher x px)
          | inr e' ↦ omega (arith, ap rank e')
        ] in
        rw (populate_cache-none fqn us n m c e) (
          IfSome-map (Looped fqn us rank Q m (direct us m) (insert m [] c))
            (Called fqn us rank P m c) _ (Looped-Called P m c)
            (fill-Looped (λ d c'. populate_cache fqn us n d c') Q m (direct us m) (insert m [] c)
              (inr refl) low
              (λ d c' edge h'.
                populate_cache-Called n d Q c' (λ x q. omega (arith, low x q, down m d edge)) h')
              (λ d i. i) (ap is_some (lookup-insert_self m [] c)) (insert-FullBut P m c h)))
    | inr (ns, e) ↦
        rw (populate_cache-some fqn us n m c ns e)
          (record { cached = ap is_some e; others_full = h; above = λ x l. refl })
  ]

  -- If the uses go down in a rank of the messages, so that no message uses itself through others,
  -- and every cache holds exactly the messages that use its owner directly or through others, then
  -- `populateDependentsCache` ends, on fuel two more than the number of uses, with a cache for its
  -- message, and again every cache holds exactly the messages that use its owner.
  pub populate_cache-Exact :
      (m : ℕ) (c : Caches)
      → Exact fqn us c
      → (c' : Caches) × (populate_cache fqn us (suc (suc (length us))) m c ≡ some c')
        × (has_cache m c' ≡ true)
        × Exact fqn us c'
  populate_cache-Exact m c h =
      let (c', e) =
        some-of (populate_cache fqn us (suc (suc (length us))) m c)
          (populate_cache-length fqn us m c) in
      let called = subst (IfSome (Called fqn us rank (λ x. ⊥) m c)) e (
        populate_cache-Called (suc (suc (length us))) m (λ x. ⊥) c (λ x. absurd)
          (λ x cached _. h.full x cached)) in
      (
        c',
        e,
        called.cached,
        record {
          entries = populate_cache-AllEntries fqn us (suc (suc (length us))) m c c' h.entries e;
          full = λ x cached. called.others_full x cached (λ f. f);
        },
      )
    where
      some-of : {A : Type 0} (o : Option A) → is_some o ≡ true → (a : A) × (o ≡ some a)
      some-of none h = cc h
      some-of (some a) h = (a, refl)
