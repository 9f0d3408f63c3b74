-- ===== src/Group/Counts.antt =====
-- The counts of a group's members by status (src/ucloud_sandboxes_sdk/client.py,
-- `SandboxGroupStatus.counts`), against a count of the members with a status.
use ucloud_sandboxes_sdk.Prelude.{
  ℕ, suc, ◌+◌, String, Bool, true, false, List, [], ◌∷◌, ◌==◌, eq_iff, if◌then◌else◌, ◌≡◌, refl,
  arith, Bool-cases, inl, inr,
}
use ucloud_sandboxes_sdk.Group.Status.{Member, Status, bump, count_from, counts}

-- `counts.get(status, 0)`.
abbrev pub count_of : String → List (String × ℕ) → ℕ
count_of k [] = 0
count_of k ((j, n) ∷ rest) = if j == k then n else count_of k rest

-- How many members have a status.
abbrev pub with_status : String → List Member → ℕ
with_status k [] = 0
with_status k (m ∷ ms) = let rest = with_status k ms in if m.status == k then suc rest else rest

abbrev one_if : Bool → ℕ
one_if true = 1
one_if false = 0

same_test : (i j k : String) → (i == j) ≡ true → (i == k) ≡ (j == k)
same_test i j k h = let e : i ≡ j = (eq_iff i j).0 h in rw e refl

count_of-bump :
    (k j : String) (c : List (String × ℕ)) → count_of k (bump j c) ≡ one_if (j == k) + count_of k c
count_of-bump k j [] = elim (Bool-cases (j == k)) [ inl p ↦ rw p refl | inr p ↦ rw p refl ]
count_of-bump k j ((i, n) ∷ rest) = elim (Bool-cases (i == j)) [
  | inl same ↦ elim (Bool-cases (j == k)) [
    | inl p ↦ rw (same, same_test i j k same, p) (omega arith)
    | inr p ↦ rw (same, same_test i j k same, p) (omega arith)
  ]
  | inr differ ↦ ground (arith, count_of-bump k j rest, eq_iff i k, eq_iff j k, eq_iff i j)
]

count_of-count_from :
    (k : String) (c : List (String × ℕ)) (ms : List Member)
    → count_of k (count_from c ms) ≡ count_of k c + with_status k ms
count_of-count_from k c [] = omega arith
count_of-count_from k c (m ∷ ms) =
    ground (arith, count_of-count_from k (bump m.status c) ms, count_of-bump k m.status c)

-- The count of each status is the number of the group's members that have it.
pub count_of-counts : (s : Status) (k : String) → count_of k (counts s) ≡ with_status k s.members
unfolding counts
count_of-counts s k = omega (arith, count_of-count_from k [] s.members)
