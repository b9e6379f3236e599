-- ===== src/Persister/Past.antt =====
-- Positions in a list of files behind a run of files without a name.
use protoc_gen_star.Base.{
  if◌then◌else◌, Option-cases, nat_eq, Text, text_eq, beq_false, length, All, ℕ, suc, ◌+◌, ◌≡◌,
  refl, sym, ap, ◌≢◌, inl, inr, false, Option, none, some, List, [], ◌∷◌, ◌++◌, arith,
}
use protoc_gen_star.Text.{take, drop}
use protoc_gen_star.Artifact.{ResponseFile}
use protoc_gen_star.Persister.{is_target, index_of_file, set_file}
use protoc_gen_star.Persister.Groups.{Group, IsChunk, IsGroup, is_whole}

-- The index behind a list of files.
abbrev pub past : List ResponseFile → ℕ → ℕ
past [] i = i
past (c ∷ cs) i = suc (past cs i)

abbrev pub shift : List ResponseFile → Option ℕ → Option ℕ
shift cs none = none
shift cs (some i) = some (past cs i)

pub past-add : (cs : List ResponseFile) (i n : ℕ) → past cs i + n ≡ past cs (i + n)
past-add [] i n = refl
past-add (c ∷ cs) i n = omega (arith, past-add cs i n)

pub set_file-past :
    (cs files : List ResponseFile) (i : ℕ) (f : ResponseFile)
    → set_file (cs ++ files) (past cs i) f ≡ cs ++ set_file files i f
set_file-past [] files i f = refl
set_file-past (c ∷ cs) files i f = ap (◌∷◌ c) (set_file-past cs files i f)

pub drop-past :
    (cs files : List ResponseFile) (i : ℕ) → drop (past cs i) (cs ++ files) ≡ drop i files
drop-past [] files i = refl
drop-past (c ∷ cs) files i = drop-past cs files i

pub drop-suc-past :
    (cs files : List ResponseFile) (i : ℕ)
    → drop (suc (past cs i)) (cs ++ files) ≡ drop (suc i) files
drop-suc-past [] files i = refl
drop-suc-past (c ∷ cs) files i = drop-suc-past cs files i

pub take-suc-past :
    (cs files : List ResponseFile) (i : ℕ)
    → take (suc (past cs i)) (cs ++ files) ≡ cs ++ take (suc i) files
take-suc-past [] files i = refl
take-suc-past (c ∷ cs) files i = ap (◌∷◌ c) (take-suc-past cs files i)

pub take-length : (cs files : List ResponseFile) → take (length cs) (cs ++ files) ≡ cs
take-length [] files = refl
take-length (c ∷ cs) files = ap (◌∷◌ c) (take-length cs files)

pub drop-length : (cs files : List ResponseFile) → drop (length cs) (cs ++ files) ≡ files
drop-length [] files = refl
drop-length (c ∷ cs) files = drop-length cs files

-- Names that are searched for are not empty, so no chunk is found.
pub chunk-not_target :
    (name : Text) (f : ResponseFile) → name ≢ [] → IsChunk f → is_target name f ≡ false
chunk-not_target name f n h = rw h (rw (beq_false [] name (λ e. n (sym e))) refl)

pub index_of_file_chunks :
    (name : Text) (cs files : List ResponseFile)
    → name ≢ []
    → All IsChunk cs
    → index_of_file (cs ++ files) name ≡ shift cs (index_of_file files name)
unfolding index_of_file
index_of_file_chunks name [] files n h = ground arith
index_of_file_chunks name (c ∷ cs) files n h =
    rw (chunk-not_target name c n h.0, index_of_file_chunks name cs files n h.1) (ground arith)

-- What `indexOfFile` asks of a file is that it is whole and of that name.
is_target-is_whole : (name : Text) (f : ResponseFile) → is_target name f ≡ is_whole name f
is_target-is_whole name f = elim (Option-cases f.insertion_point) [
  | inl e ↦ rw e (ground arith)
  | inr (p, e) ↦ rw e (ground arith)
]

pub index_of_file-group :
    (name : Text) (g : Group) (files : List ResponseFile)
    → name ≢ []
    → IsGroup g
    → index_of_file (g.head ∷ (g.chunks ++ files)) name ≡ (
        if is_whole name g.head
        then some 0
        else shift (g.head ∷ g.chunks) (index_of_file files name))
index_of_file-group name g files n h =
    unfold index_of_file in
    rw (index_of_file_chunks name g.chunks files n h.nameless, is_target-is_whole name g.head)
      (ground arith)
