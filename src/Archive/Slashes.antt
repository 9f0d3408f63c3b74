-- ===== src/Archive/Slashes.antt =====
-- Splitting and joining at slashes, and the components that the check of a path lets through.
use ucloud_sandboxes_sdk.Prelude.{
  ℕ, String, true, false, List, [], ◌∷◌, ◌++◌, any, All, subst, ◌≡◌, refl, ap, sym, eqb→eq, ◌∙◌,
  arith, inl, inr, Bool-cases,
}
use ucloud_sandboxes_sdk.Errors.{ok}
use ucloud_sandboxes_sdk.Archive.Parts.{
  in_first, split_slash, join_slash, is_control, is_slash, is_dot_dot, is_kept, kept_parts,
  container_path_parts, IsPart,
}

abbrev pub NoSlash : List ℕ → Type 0
NoSlash p = any is_slash p ≡ false

split-NoSlash : (p : List ℕ) → NoSlash p → split_slash p ≡ p ∷ []
split-NoSlash [] h = refl
split-NoSlash (c ∷ p) h =
    let e = split-NoSlash p (ground arith) in
    let k : is_slash c ≡ false = ground arith in rw (k, e) refl

pub split_slash-cons : (s : List ℕ) → (p : List ℕ) × (ps : List (List ℕ)) × (split_slash s ≡ p ∷ ps)
split_slash-cons [] = ([], [], refl)
split_slash-cons (c ∷ s) = elim (Bool-cases (is_slash c)) [
  | inl e ↦ ([], split_slash s, rw e refl)
  | inr e ↦ let (p, ps, h) = split_slash-cons s in (c ∷ p, ps, rw (e, h) refl)
]

pub split_slash-append :
    (s t : List ℕ) → split_slash (s ++ b'/' ∷ t) ≡ split_slash s ++ split_slash t
split_slash-append [] t = refl
split_slash-append (c ∷ s) t =
    let ih = split_slash-append s t in
    let (p, ps, h) = split_slash-cons s in
    elim (Bool-cases (is_slash c)) [ inl e ↦ rw (e, ih) refl | inr e ↦ rw (e, ih, h) refl ]

join_slash-in_first :
    (c : ℕ) (p : List ℕ) (ps : List (List ℕ))
    → join_slash (in_first c (p ∷ ps)) ≡ c ∷ join_slash (p ∷ ps)
join_slash-in_first c p [] = refl
join_slash-in_first c p (q ∷ ps) = refl

slash_first :
    (c : ℕ) (ps qs : List (List ℕ)) (p : List ℕ)
    → is_slash c ≡ true
    → qs ≡ p ∷ ps
    → join_slash ([] ∷ qs) ≡ c ∷ join_slash qs
slash_first c ps qs p e h = rw (eqb→eq c b'/' e, h) refl

-- Joining undoes splitting.
pub join_slash-split_slash : (s : List ℕ) → join_slash (split_slash s) ≡ s
join_slash-split_slash [] = refl
join_slash-split_slash (c ∷ s) =
    let ih = join_slash-split_slash s in
    let (p, ps, h) = split_slash-cons s in
    elim (Bool-cases (is_slash c)) [
      | inl e ↦ rw e (slash_first c ps (split_slash s) p e h ∙ ap (λ t. c ∷ t) ih)
      | inr e ↦ rw (e, h) (join_slash-in_first c p ps ∙ ap (λ t. c ∷ t) (rw (sym h) ih))
    ]

-- Splitting at slashes undoes joining parts without slashes.
pub split_slash-join_slash :
    (p : List ℕ) (ps : List (List ℕ))
    → All NoSlash (p ∷ ps)
    → split_slash (join_slash (p ∷ ps)) ≡ p ∷ ps
split_slash-join_slash p [] h = split-NoSlash p h.0
split_slash-join_slash p (q ∷ ps) h =
    let ih = split_slash-join_slash q ps h.1 in
    split_slash-append p (join_slash (q ∷ ps)) ∙ rw (split-NoSlash p h.0, ih) refl

-- What splitting leaves of a text without control characters.
abbrev IsPiece : List ℕ → Type 0
IsPiece p = NoSlash p × (any is_control p ≡ false)

split_slash-IsPiece : (s : List ℕ) → any is_control s ≡ false → All IsPiece (split_slash s)
split_slash-IsPiece [] h = ((refl, refl), tt)
split_slash-IsPiece (c ∷ s) h =
    let ih = split_slash-IsPiece s (ground arith) in
    let k : is_control c ≡ false = ground arith in
    let (p, ps, cut) = split_slash-cons s in
    elim (Bool-cases (is_slash c)) [
      | inl e ↦ rw e ((refl, refl), ih)
      | inr e ↦
          let ((a, b), rest) = subst (All IsPiece) cut ih in rw (e, cut) ((rw e a, rw k b), rest)
    ]

kept_parts-IsPart :
    (ps : List (List ℕ))
    → All IsPiece ps
    → any is_dot_dot (kept_parts ps) ≡ false
    → All IsPart (kept_parts ps)
kept_parts-IsPart [] h k = tt
kept_parts-IsPart (p ∷ ps) h k = elim (Bool-cases (is_kept p)) [
  | inr e ↦ rw e (kept_parts-IsPart ps h.1 (ground arith))
  | inl e ↦
      let clean : is_dot_dot p ≡ false = ground arith in
      let clean_rest : any is_dot_dot (kept_parts ps) ≡ false = ground arith in
      let part : IsPart p = record {
        kept = e;
        no_parent = clean;
        no_slash = h.0.0;
        no_control = h.0.1;
      } in
      rw e (part, kept_parts-IsPart ps h.1 clean_rest)
]

-- The components that the check of a path lets through are names of directory entries.
pub container_path_parts-IsPart :
    (path : List ℕ) (what : String) (parts : List (List ℕ))
    → container_path_parts path what ≡ ok parts
    → All IsPart parts
unfolding container_path_parts
container_path_parts-IsPart path what parts h =
    let a : any is_control path ≡ false = ground arith in
    let b : any is_dot_dot (kept_parts (split_slash path)) ≡ false = ground arith in
    let e : kept_parts (split_slash path) ≡ parts = ground arith in
    subst (All IsPart) e (kept_parts-IsPart (split_slash path) (split_slash-IsPiece path a) b)
