-- ===== src/Options/Callers.antt =====
-- What the callers of the method `Extension` get for an option that is set.
use protoc_gen_star.Base.{if◌then◌else◌, ◌≡◌, refl, ap, ◌∙◌, Bool, true, false, Option, none, some}
use protoc_gen_star.Options.{
  Slot, plain, pointer, cannot_assign, Answer, answer, panics, contents, settle, assign, boxed,
  entity_extension,
}

module _ {T Opts Info : Type 0} (assignable : T → T → Bool) (has : Opts → Info → Bool)
    (get : Opts → Info → Option (Slot T)) (opts : Opts) (e : Info) where
  -- The option is set, to a value of this type.
  pub record HasOption (v : T) : Type 0 where
    pub set : has opts e ≡ true
    pub slot : Slot T
    pub got : get opts e ≡ some slot
    pub type : contents slot ≡ some v

  abbrev pub read : Option (Slot T) → Answer T
  read ext = entity_extension assignable has get (some opts) (some e) ext

  read_set :
      (v : T) (ext : Option (Slot T))
      → HasOption v
      → read ext
        ≡ assign assignable (some v) (settle false (pointer (boxed assignable has get ext)))
  unfolding entity_extension
  read_set v ext h = rw (h.set, h.got, h.type) refl

  -- For an option that is set, a pointer to a variable gets the value if its type allows, and else
  -- the error that it cannot be assigned. A nil output makes `Extension` panic, and so does one that
  -- is no pointer and whose type allows the value: neither gets the error that `extension` has for
  -- it.
  pub entity_extension-set :
      (v t : T)
      → HasOption v
      → (read (some (pointer (plain t))) ≡ (
          if assignable v t
          then answer true none (some v)
          else answer true (some cannot_assign) none))
        × (read none ≡ panics)
        × (assignable v t ≡ true → read (some (plain t)) ≡ panics)
  unfolding settle assign
  entity_extension-set v t h = (
    read_set v (some (pointer (plain t))) h,
    read_set v none h,
    λ fits.
        read_set v (some (plain t)) h
        ∙ ap (λ b. if b then panics else answer true (some cannot_assign) none) fits,
  )
