-- ===== src/Persister/Insert.antt =====
-- `insertFile` and `insertAppend` on a list of groups do what is said of groups.
use protoc_gen_star.Persister.Past.{
  past, shift, past-add, set_file-past, drop-suc-past, take-suc-past, take-length, drop-length,
  index_of_file-group,
}
use protoc_gen_star.Base.{
  Bool-cases, Option-cases, nat_eq, Text, text_eq, beq_false, length, All, ℕ, suc, ◌+◌, ◌≡◌, refl,
  sym, ap, ◌∙◌, ◌≢◌, inl, inr, Bool, true, false, Option, none, some, List, [], ◌∷◌, ◌++◌,
  append_assoc, arith,
}
use protoc_gen_star.Text.{take, drop}
use protoc_gen_star.Artifact.{append_target_missing, err, ok, ResponseFile}
use protoc_gen_star.Persister.{
  get_text, index_of_file, nameless_run, set_file, insert_file, insert_append,
}
use protoc_gen_star.Persister.Groups.{
  Group, IsNamed, IsChunk, IsGroup, flatten, is_whole, single, replace_head, add_chunk, put_file,
  flatten-append,
}

-- What the index is used for: a write at it, and an insertion behind its tail.
set_at : List ResponseFile → ResponseFile → Option ℕ → Option (List ResponseFile)
set_at files f none = none
set_at files f (some i) = some (set_file files i f)

place : List ResponseFile → ResponseFile → ℕ → List ResponseFile
place files f i =
    let t = i + nameless_run (drop (suc i) files) in take (suc t) files ++ (f ∷ drop (suc t) files)

place_at : List ResponseFile → ResponseFile → Option ℕ → Option (List ResponseFile)
place_at files f none = none
place_at files f (some i) = some (place files f i)

abbrev behind : List ResponseFile → Option (List ResponseFile) → Option (List ResponseFile)
behind cs none = none
behind cs (some l) = some (cs ++ l)

abbrev flat : Option (List Group) → Option (List ResponseFile)
flat none = none
flat (some gs) = some (flatten gs)

set_at-shift :
    (cs files : List ResponseFile) (f : ResponseFile) (o : Option ℕ)
    → set_at (cs ++ files) f (shift cs o) ≡ behind cs (set_at files f o)
unfolding set_at
set_at-shift cs files f none = refl
set_at-shift cs files f (some i) = ap some (set_file-past cs files i f)

place-past :
    (cs files : List ResponseFile) (f : ResponseFile) (i : ℕ)
    → place (cs ++ files) f (past cs i) ≡ cs ++ place files f i
unfolding place
place-past cs files f i =
    let n = nameless_run (drop (suc i) files) in
    rw
      (
        drop-suc-past cs files i,
        past-add cs i n,
        drop-suc-past cs files (i + n),
        take-suc-past cs files (i + n),
      )
      (append_assoc cs _ _)

place_at-shift :
    (cs files : List ResponseFile) (f : ResponseFile) (o : Option ℕ)
    → place_at (cs ++ files) f (shift cs o) ≡ behind cs (place_at files f o)
unfolding place_at
place_at-shift cs files f none = refl
place_at-shift cs files f (some i) = ap some (place-past cs files f i)

nameless_run-flatten :
    (cs : List ResponseFile) (gs : List Group)
    → All IsChunk cs
    → All IsGroup gs
    → nameless_run (cs ++ flatten gs) ≡ length cs
unfolding nameless_run
nameless_run-flatten [] [] h hs = refl
nameless_run-flatten [] (g ∷ gs) h hs = rw (beq_false (get_text g.head.name) [] hs.0.named) refl
nameless_run-flatten (c ∷ cs) gs h hs = rw (h.0, nameless_run-flatten cs gs h.1 hs) refl

place-head :
    (h f : ResponseFile) (cs : List ResponseFile) (gs : List Group)
    → All IsChunk cs
    → All IsGroup gs
    → place (h ∷ (cs ++ flatten gs)) f 0 ≡ h ∷ ((cs ++ (f ∷ [])) ++ flatten gs)
unfolding place
place-head h f cs gs hc hs =
    let e : 0 + length cs ≡ length cs = omega arith in
    rw (nameless_run-flatten cs gs hc hs, e, take-length cs, drop-length cs)
      (ap (◌∷◌ h) (sym (append_assoc cs (f ∷ []) (flatten gs))))

set_at-flatten :
    (name : Text) (f : ResponseFile) (gs : List Group)
    → name ≢ []
    → All IsGroup gs
    → set_at (flatten gs) f (index_of_file (flatten gs) name) ≡ flat (replace_head name f gs)
set_at-flatten name f [] n h = unfold index_of_file set_at in refl
set_at-flatten name f (g ∷ gs) n h =
    rw (index_of_file-group name g (flatten gs) n h.0) (elim (Bool-cases (is_whole name g.head)) [
      | inl found ↦ rw found (unfold set_at in refl)
      | inr next ↦ rw next (
          set_at-shift (g.head ∷ g.chunks) (flatten gs) f _
          ∙ rw (set_at-flatten name f gs n h.1) (ground arith))
    ])

place_at-flatten :
    (name : Text) (f : ResponseFile) (gs : List Group)
    → name ≢ []
    → All IsGroup gs
    → place_at (flatten gs) f (index_of_file (flatten gs) name) ≡ flat (add_chunk name f gs)
place_at-flatten name f [] n h = unfold index_of_file place_at in refl
place_at-flatten name f (g ∷ gs) n h =
    rw (index_of_file-group name g (flatten gs) n h.0) (elim (Bool-cases (is_whole name g.head)) [
      | inl found ↦
          rw found (unfold place_at in ap some (place-head g.head f g.chunks gs h.0.nameless h.1))
      | inr next ↦ rw next (
          place_at-shift (g.head ∷ g.chunks) (flatten gs) f _
          ∙ rw (place_at-flatten name f gs n h.1) (ground arith))
    ])

insert_file-set_at :
    (files : List ResponseFile) (f : ResponseFile)
    → insert_file files f true ≡ elim (set_at files f (index_of_file files (get_text f.name))) [
      | some l ↦ l
      | none ↦ files ++ (f ∷ [])
    ]
unfolding insert_file set_at
insert_file-set_at files f = ground arith

insert_append-place_at :
    (files : List ResponseFile) (name : Text) (f : ResponseFile)
    → insert_append files name f ≡ elim (place_at files f (index_of_file files name)) [
      | some l ↦ ok l
      | none ↦ err append_target_missing
    ]
unfolding insert_append place_at place
insert_append-place_at files name f = ground arith

-- For a file with a name, and groups whose heads have names and whose chunks have none,
-- `insertFile` on the files of the groups gives the files of the groups again: with overwriting
-- the new file is in place of the first head of that name that is no injection, with the chunks of
-- the old head kept behind it; without overwriting, or if there is no such head, it is a new group
-- at the end.
pub insert_file-flatten :
    (f : ResponseFile) (overwrite : Bool) (gs : List Group)
    → IsNamed f
    → All IsGroup gs
    → insert_file (flatten gs) f overwrite ≡ flatten (put_file f overwrite gs)
insert_file-flatten f false gs n h = unfold insert_file in sym (flatten-append gs (single f ∷ []))
insert_file-flatten f true gs n h =
    insert_file-set_at (flatten gs) f
    ∙ rw (set_at-flatten (get_text f.name) f gs n h)
        (elim (Option-cases (replace_head (get_text f.name) f gs)) [
          | inl missing ↦ rw (missing, put_file) (sym (flatten-append gs (single f ∷ [])))
          | inr (gs', found) ↦ rw (found, put_file) refl
        ])

-- For a name that is not empty, and groups whose heads have names and whose chunks have none,
-- `insertAppend` puts the chunk at the end of the first group whose head is of that name and no
-- injection, and fails if there is no such group, also where there are injections of that name.
pub insert_append-flatten :
    (name : Text) (f : ResponseFile) (gs : List Group)
    → name ≢ []
    → All IsGroup gs
    → insert_append (flatten gs) name f ≡ elim (add_chunk name f gs) [
      | some gs' ↦ ok (flatten gs')
      | none ↦ err append_target_missing
    ]
insert_append-flatten name f gs n h =
    insert_append-place_at (flatten gs) name f
    ∙ rw (place_at-flatten name f gs n h) (elim (Option-cases (add_chunk name f gs)) [
      | inl missing ↦ rw missing refl
      | inr (gs', found) ↦ rw found refl
    ])
