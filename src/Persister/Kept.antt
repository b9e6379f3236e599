-- ===== src/Persister/Kept.antt =====
-- The operations on groups keep their heads named and their chunks nameless.
use protoc_gen_star.Base.{
  Bool-cases, Option-cases, Text, All, All-append, inl, inr, Bool, true, false, Option, none, some,
  List, [], ◌∷◌,
}
use protoc_gen_star.Artifact.{ResponseFile}
use protoc_gen_star.Persister.{get_text}
use protoc_gen_star.Persister.Groups.{
  Group, IsNamed, IsChunk, IsGroup, is_whole, single, replace_head, add_chunk, put_file,
}

-- The operations on groups keep each of them a group.
abbrev pub AllGroups : Option (List Group) → Type 0
AllGroups none = Unit
AllGroups (some gs) = All IsGroup gs

pub AllGroups-cons :
    (g : Group) (o : Option (List Group))
    → IsGroup g
    → AllGroups o
    → AllGroups (elim o [ none ↦ none | some gs ↦ some (g ∷ gs) ])
AllGroups-cons g none h a = tt
AllGroups-cons g (some gs) h a = (h, a)

pub replace_head-AllGroups :
    (name : Text) (f : ResponseFile) (gs : List Group)
    → IsNamed f
    → All IsGroup gs
    → AllGroups (replace_head name f gs)
replace_head-AllGroups name f [] n h = tt
replace_head-AllGroups name f (g ∷ gs) n h = elim (Bool-cases (is_whole name g.head)) [
  | inl found ↦ rw found (record { named = n; nameless = h.0.nameless }, h.1)
  | inr next ↦ rw next (AllGroups-cons g _ h.0 (replace_head-AllGroups name f gs n h.1))
]

pub add_chunk-AllGroups :
    (name : Text) (f : ResponseFile) (gs : List Group)
    → IsChunk f
    → All IsGroup gs
    → AllGroups (add_chunk name f gs)
add_chunk-AllGroups name f [] c h = tt
add_chunk-AllGroups name f (g ∷ gs) c h = elim (Bool-cases (is_whole name g.head)) [
  | inl found ↦ rw found (
    record {
      named = h.0.named;
      nameless = All-append IsChunk g.chunks (f ∷ []) h.0.nameless (c, tt);
    },
    h.1,
  )
  | inr next ↦ rw next (AllGroups-cons g _ h.0 (add_chunk-AllGroups name f gs c h.1))
]

pub put_file-IsGroup :
    (f : ResponseFile) (overwrite : Bool) (gs : List Group)
    → IsNamed f
    → All IsGroup gs
    → All IsGroup (put_file f overwrite gs)
put_file-IsGroup f false gs n h =
    All-append IsGroup gs (single f ∷ []) h (record { named = n; nameless = tt }, tt)
put_file-IsGroup f true gs n h = elim (Option-cases (replace_head (get_text f.name) f gs)) [
  | inl missing ↦
      rw (missing, put_file)
        (All-append IsGroup gs (single f ∷ []) h (record { named = n; nameless = tt }, tt))
  | inr (gs', found) ↦
      rw (found, put_file) (rw found at (replace_head-AllGroups (get_text f.name) f gs n h))
]
