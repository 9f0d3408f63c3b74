-- ===== src/Archive/Sorted.antt =====
-- Sorting the members by name.
use ucloud_sandboxes_sdk.Prelude.{
  ℕ, suc, Bool, true, false, List, [], ◌∷◌, any, length, same_codes, All, ◌≡◌, refl, ◌∙◌, ap, arith,
  inl, inr, Bool-cases,
}
use ucloud_sandboxes_sdk.Archive.Plan.{Named, has_name, total_of, before, insert, sort}

before_trans : (a b c : List ℕ) → before a b ≡ true → before b c ≡ true → before a c ≡ true
before_trans _ _ [] h k = k
before_trans [] _ (z ∷ c) h k = refl
before_trans (x ∷ a) [] (z ∷ c) h k = cc
before_trans (x ∷ a) (y ∷ b) (z ∷ c) h k =
    let ih : before a b ≡ true → before b c ≡ true → before a c ≡ true = before_trans a b c in
    ground arith

before_total : (a b : List ℕ) → before b a ≡ false → same_codes a b ≡ false → before a b ≡ true
before_total [] [] h k = cc
before_total [] (y ∷ b) h k = refl
before_total (x ∷ a) [] h k = cc
before_total (x ∷ a) (y ∷ b) h k =
    let ih : before b a ≡ false → same_codes a b ≡ false → before a b ≡ true = before_total a b in
    ground arith

-- Every name comes before the names that follow it; so no name stands twice.
abbrev pub Ascending : List Named → Type 0
Ascending [] = Unit
Ascending (m ∷ named) = All (λ n. before m.name n.name ≡ true) named × Ascending named

abbrev pub Distinct : List Named → Type 0
Distinct [] = Unit
Distinct (m ∷ named) = (has_name m.name named ≡ false) × Distinct named

pub any-insert :
    (q : Named → Bool) (m : Named) (named : List Named) → any q (insert m named) ≡ any q (m ∷ named)
any-insert q m [] = refl
any-insert q m (n ∷ named) =
    let ih : any q (insert m named) ≡ any q (m ∷ named) = any-insert q m named in
    elim (Bool-cases (before n.name m.name)) [
      | inl e ↦ rw (e, ih) (ground arith)
      | inr e ↦ rw e refl
    ]

pub any-sort : (q : Named → Bool) (named : List Named) → any q (sort named) ≡ any q named
any-sort q [] = refl
any-sort q (m ∷ named) = any-insert q m (sort named) ∙ rw (any-sort q named) refl

pub All-insert :
    (P : Named → Type 0) (m : Named) (named : List Named)
    → P m
    → All P named
    → All P (insert m named)
All-insert P m [] p h = (p, tt)
All-insert P m (n ∷ named) p h =
    let ih = All-insert P m named p h.1 in
    elim (Bool-cases (before n.name m.name)) [ inl e ↦ rw e (h.0, ih) | inr e ↦ rw e (p, h) ]

pub All-sort : (P : Named → Type 0) (named : List Named) → All P named → All P (sort named)
All-sort P [] h = tt
All-sort P (m ∷ named) h = All-insert P m (sort named) h.0 (All-sort P named h.1)

length-insert : (m : Named) (named : List Named) → length (insert m named) ≡ suc (length named)
length-insert m [] = refl
length-insert m (n ∷ named) =
    let ih = length-insert m named in
    elim (Bool-cases (before n.name m.name)) [ inl e ↦ rw (e, ih) refl | inr e ↦ rw e refl ]

pub length-sort : (named : List Named) → length (sort named) ≡ length named
length-sort [] = refl
length-sort (m ∷ named) = length-insert m (sort named) ∙ ap suc (length-sort named)

total_of-insert :
    (m : Named) (named : List Named) → total_of (insert m named) ≡ total_of (m ∷ named)
total_of-insert m [] = refl
total_of-insert m (n ∷ named) =
    let ih : total_of (insert m named) ≡ total_of (m ∷ named) = total_of-insert m named in
    elim (Bool-cases (before n.name m.name)) [
      | inl e ↦ rw (e, ih) (omega arith)
      | inr e ↦ rw e refl
    ]

pub total_of-sort : (named : List Named) → total_of (sort named) ≡ total_of named
total_of-sort [] = refl
total_of-sort (m ∷ named) = total_of-insert m (sort named) ∙ rw (total_of-sort named) refl

All-before :
    (a b : List ℕ) (named : List Named)
    → before a b ≡ true
    → All (λ n. before b n.name ≡ true) named
    → All (λ n. before a n.name ≡ true) named
All-before a b [] h k = tt
All-before a b (n ∷ named) h k = (before_trans a b n.name h k.0, All-before a b named h k.1)

insert-Ascending :
    (m : Named) (named : List Named)
    → has_name m.name named ≡ false
    → Ascending named
    → Ascending (insert m named)
insert-Ascending m [] fresh h = (tt, tt)
insert-Ascending m (n ∷ named) fresh h =
    let other : same_codes m.name n.name ≡ false = ground arith in
    let fresh_rest : has_name m.name named ≡ false = ground arith in
    let ih = insert-Ascending m named fresh_rest h.1 in
    elim (Bool-cases (before n.name m.name)) [
      | inl e ↦ rw e (All-insert (λ k. before n.name k.name ≡ true) m named e h.0, ih)
      | inr e ↦
          let first = before_total m.name n.name e other in
          rw e ((first, All-before m.name n.name named first h.0), h)
    ]

pub sort-Ascending : (named : List Named) → Distinct named → Ascending (sort named)
sort-Ascending [] h = tt
sort-Ascending (m ∷ named) h =
    insert-Ascending m (sort named) (any-sort (λ n. same_codes m.name n.name) named ∙ h.0)
      (sort-Ascending named h.1)
