-- ===== src/Text/Cut.antt =====
-- A text cut at the first occurrence of a rune.
use protoc_gen_star.Base.{
  nat_beq_iff, nat_eq, Text, text_eq, beq_refl, length, ℕ, suc, ◌≡◌, refl, ap, none, some, [], ◌∷◌,
  ◌++◌, arith,
}
use protoc_gen_star.Text.{take, drop, index, split_two}
use protoc_gen_star.Text.Split.{Lacks}

pub index-append : (c : ℕ) (k v : Text) → Lacks c k → index c (k ++ c ∷ v) ≡ some (length k)
unfolding index
index-append c [] v h = rw (beq_refl c)
index-append c (x ∷ k) v h = ground (arith, nat_beq_iff x c, index-append c k v h.1)

pub index-Lacks : (c : ℕ) (k : Text) → Lacks c k → index c k ≡ none
unfolding index
index-Lacks c [] h = refl
index-Lacks c (x ∷ k) h = ground (arith, nat_beq_iff x c, index-Lacks c k h.1)

pub take-append : (k v : Text) → take (length k) (k ++ v) ≡ k
take-append [] v = refl
take-append (x ∷ k) v = ap (x ∷◌) (take-append k v)

pub drop-append : (x : ℕ) (k v : Text) → drop (suc (length k)) (k ++ x ∷ v) ≡ v
drop-append x [] v = refl
drop-append x (y ∷ k) v = drop-append x k v

pub split_two-append : (c : ℕ) (k v : Text) → Lacks c k → split_two c (k ++ c ∷ v) ≡ k ∷ v ∷ []
unfolding split_two
split_two-append c k v h =
    rw (index-append c k v h, split_two, take-append k (c ∷ v), drop-append c k v) refl
