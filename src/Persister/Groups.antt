-- ===== src/Persister/Groups.antt =====
-- What the list of response files stands for: protoc reads a file without a name as more content of
-- the file before it. So the list is a list of groups, a named file with the chunks behind it.
use protoc_gen_star.Base.{
  if◌then◌else◌, ◌==◌, nat_eq, Text, text_eq, All, ◌≡◌, refl, sym, ap, ◌≢◌, Bool, true, false,
  Option, none, some, List, [], ◌∷◌, ◌++◌, append_assoc,
}
use protoc_gen_star.Artifact.{ResponseFile}
use protoc_gen_star.Persister.{get_text}

pub record Group : Type 0 where
  pub head : ResponseFile
  pub chunks : List ResponseFile

abbrev pub IsNamed : ResponseFile → Type 0
IsNamed f = get_text f.name ≢ []

abbrev pub IsChunk : ResponseFile → Type 0
IsChunk f = get_text f.name ≡ []

pub record IsGroup (g : Group) : Type 0 where
  pub named : IsNamed g.head
  pub nameless : All IsChunk g.chunks

abbrev pub flatten : List Group → List ResponseFile
flatten [] = []
flatten (g ∷ gs) = g.head ∷ (g.chunks ++ flatten gs)

-- A file of this name that is no injection into one.
abbrev pub is_whole : Text → ResponseFile → Bool
is_whole name f = elim f.insertion_point [ none ↦ get_text f.name == name | some point ↦ false ]

-- The operations, on groups: a new group, a new head, a chunk behind the first group whose head is
-- of that name and no injection.
abbrev pub single : ResponseFile → Group
single f = record { head = f; chunks = [] }

abbrev pub replace_head : Text → ResponseFile → List Group → Option (List Group)
replace_head name f [] = none
replace_head name f (g ∷ gs) =
    let rest = replace_head name f gs in
    if is_whole name g.head
    then some (record g { head = f } ∷ gs)
    else elim rest [ none ↦ none | some gs' ↦ some (g ∷ gs') ]

abbrev pub add_chunk : Text → ResponseFile → List Group → Option (List Group)
add_chunk name f [] = none
add_chunk name f (g ∷ gs) =
    let rest = add_chunk name f gs in
    if is_whole name g.head
    then some (record g { chunks = g.chunks ++ (f ∷ []) } ∷ gs)
    else elim rest [ none ↦ none | some gs' ↦ some (g ∷ gs') ]

abbrev pub put_file : ResponseFile → Bool → List Group → List Group
put_file f true gs = elim (replace_head (get_text f.name) f gs) [
  | some gs' ↦ gs'
  | none ↦ gs ++ (single f ∷ [])
]
put_file f false gs = gs ++ (single f ∷ [])

pub flatten-append : (gs hs : List Group) → flatten (gs ++ hs) ≡ flatten gs ++ flatten hs
flatten-append [] hs = refl
flatten-append (g ∷ gs) hs =
    rw (flatten-append gs hs) (sym (ap (◌∷◌ g.head) (append_assoc g.chunks _ _)))
