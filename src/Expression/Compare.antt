-- ===== src/Expression/Compare.antt =====
-- When two expressions compare as always equal (src/parser/expression.hpp).
use greensql_fw.Base.{
  suc, ◌≤◌, Bool, true, false, not, ◌&&◌, ◌||◌, if◌then◌else◌, Bytes, [], ◌∷◌, List, equal,
  equal_iff, length, ◌≡◌, refl, sym, ◌∙◌, ap, arith, Bool-cases, inl, inr, ◌⊎◌, ◌↔◌,
}
use greensql_fw.Expression.{
  Expression, mem, insert_field, insert_fields, difference, same_const, comp, add, add_field,
}

-- No field stands twice.
unfoldable pub nodup : List Bytes → Bool
nodup [] = true
nodup (f ∷ fields) = not (mem f fields) && nodup fields

mem-insert_field :
    (k f : Bytes) (fields : List Bytes)
    → mem k (insert_field f fields) ≡ (equal k f || mem k fields)
unfolding insert_field mem
mem-insert_field k f fields = ground (arith, equal_iff k f)

nodup-insert_field :
    (f : Bytes) (fields : List Bytes) → nodup fields ≡ true → nodup (insert_field f fields) ≡ true
unfolding insert_field nodup
nodup-insert_field f fields h = ground arith

mem-insert_fields :
    (k : Bytes) (others fields : List Bytes)
    → mem k (insert_fields others fields) ≡ (mem k fields || mem k others)
unfolding insert_fields mem
mem-insert_fields k [] fields = ground arith
mem-insert_fields k (f ∷ others) fields =
    mem-insert_fields k others (insert_field f fields)
    ∙ (rw (mem-insert_field k f fields) (ground arith))

nodup-insert_fields :
    (others fields : List Bytes) → nodup fields ≡ true → nodup (insert_fields others fields) ≡ true
unfolding insert_fields
nodup-insert_fields [] fields h = h
nodup-insert_fields (f ∷ others) fields h =
    nodup-insert_fields others (insert_field f fields) (nodup-insert_field f fields h)

delete : Bytes → List Bytes → List Bytes
delete k [] = []
delete k (f ∷ fields) = let rest = f ∷ delete k fields in if equal k f then fields else rest

length-delete :
    (k : Bytes) (fields : List Bytes)
    → mem k fields ≡ true
    → suc (length (delete k fields)) ≡ length fields
unfolding delete mem
length-delete k [] h = ground arith
length-delete k (f ∷ fields) h = ground (arith, length-delete k fields)

mem-delete :
    (k j : Bytes) (fields : List Bytes) → equal k j ≡ false → mem k (delete j fields) ≡ mem k fields
unfolding delete mem
mem-delete k j [] h = refl
mem-delete k j (f ∷ fields) h = ground (arith, mem-delete k j fields h, equal_iff j f)

mem_apart :
    (f : Bytes) (a : List Bytes) (j : Bytes) → mem f a ≡ false → mem j a ≡ true → equal j f ≡ false
mem_apart f a j fresh m = elim (Bool-cases (equal j f)) [
  | inl same ↦ absurd (ground (arith, ap (λ x. mem x a) ((equal_iff j f).0 same)))
  | inr other ↦ other
]

included-all :
    (a b : List Bytes)
    → nodup a ≡ true
    → ((k : Bytes) → mem k a ≡ true → mem k b ≡ true)
    → length b ≤ length a
    → (k : Bytes) → mem k b ≡ true
    → mem k a ≡ true
unfolding nodup mem
included-all [] [] n s l k h = ground arith
included-all [] (f ∷ b) n s l k h = ground arith
included-all (f ∷ a) b n s l k h =
    let fresh : mem f a ≡ false = ground arith in
    let rest : nodup a ≡ true = ground arith in
    let here : mem f b ≡ true = s f (ground (arith, equal_iff f f)) in
    elim (Bool-cases (equal k f)) [
      | inl same ↦ rw same
      | inr other ↦ rw other (
          included-all a (delete f b) rest
            (λ j m. mem-delete j f b (mem_apart f a j fresh m) ∙ s j (ground arith))
            (omega (arith, length-delete f b here)) k (mem-delete k f b other ∙ h))
    ]

difference-included :
    (a b : List Bytes) → length (difference a b) ≡ 0 → (k : Bytes) → mem k a ≡ true → mem k b ≡ true
unfolding difference mem
difference-included [] b e k h = ground arith
difference-included (f ∷ a) b e k h = elim (Bool-cases (mem f b)) [
  | inl held ↦ elim (Bool-cases (equal k f)) [
    | inl same ↦ ap (λ x. mem x b) ((equal_iff k f).0 same) ∙ held
    | inr other ↦ difference-included a b (rw held at e) k (ground arith)
  ]
  | inr lacking ↦ absurd (let none_left = (rw lacking at e) in omega arith)
]

included-difference :
    (a b : List Bytes)
    → ((k : Bytes) → mem k a ≡ true → mem k b ≡ true)
    → length (difference a b) ≡ 0
unfolding difference mem
included-difference [] b s = refl
included-difference (f ∷ a) b s =
    rw (s f (ground (arith, equal_iff f f))) (included-difference a b (λ k m. s k (ground arith)))

included-length :
    (a b : List Bytes)
    → nodup a ≡ true
    → ((k : Bytes) → mem k a ≡ true → mem k b ≡ true)
    → length a ≤ length b
unfolding nodup mem
included-length [] b n s = omega arith
included-length (f ∷ a) b n s =
    let here : mem f b ≡ true = s f (ground (arith, equal_iff f f)) in
    omega (
      arith,
      length-delete f b here,
      included-length a (delete f b) (ground arith)
          (λ j m. mem-delete j f b (mem_apart f a j (ground arith) m) ∙ s j (ground arith)),
    )

-- Two sets of fields have the same elements exactly if they are of one size and nothing is left of
-- the one without the other.
same_fields-difference :
    (a b : List Bytes)
    → nodup a ≡ true
    → nodup b ≡ true
    → ((k : Bytes) → mem k a ≡ mem k b) ↔ ((length a ≡ length b) × (length (difference a b) ≡ 0))
same_fields-difference a b n m = (
  λ same. (
    omega (
      arith,
      included-length a b n (λ k h. sym (same k) ∙ h),
      included-length b a m (λ k h. same k ∙ h),
    ),
    included-difference a b (λ k h. sym (same k) ∙ h),
  ),
  λ (size, left) k. ground (
    arith,
    difference-included a b left k,
    included-all a b n (difference-included a b left) (omega arith) k,
  ),
)

-- An expression as AddField, AddConst and Add build it: no field stands twice.
abbrev pub IsValid : Expression → Type 0
IsValid e = nodup e.fields ≡ true

-- Add makes of two expressions one with the fields of both and a constant if either has one; no
-- field stands twice in it if none does in the first, and so with AddField.
add-fields :
    (e xp2 : Expression) (str : Bytes)
    → IsValid e
    → ((k : Bytes) → mem k (add e xp2).fields ≡ (mem k e.fields || mem k xp2.fields))
      × ((add e xp2).has_const ≡ (e.has_const || xp2.has_const))
      × IsValid (add e xp2)
      × IsValid (add_field e str)
unfolding add add_field
add-fields e xp2 str h = (
  λ k. mem-insert_fields k xp2.fields e.fields,
  refl,
  nodup-insert_fields xp2.fields e.fields h,
  nodup-insert_field _ e.fields h,
)

difference-nil : (a b : List Bytes) → length a ≡ 0 → length (difference a b) ≡ 0
unfolding difference
difference-nil [] b h = refl
difference-nil (f ∷ a) b h = absurd (omega arith)

same_const_iff : (b b' : Bool) → (same_const b b' ≡ true) ↔ (b ≡ b')
same_const_iff true true = (λ h. refl, λ h. refl)
same_const_iff true false = (λ h. absurd (ground arith), λ h. absurd (ground arith))
same_const_iff false true = (λ h. absurd (ground arith), λ h. absurd (ground arith))
same_const_iff false false = (λ h. refl, λ h. refl)

comp-tests :
    (e xp2 : Expression)
    → (comp e xp2 ≡ true) ↔ (
        (length e.fields ≡ length xp2.fields)
        × (length (difference e.fields xp2.fields) ≡ 0)
        × ((length e.fields ≡ 0) ⊎ (e.has_const ≡ xp2.has_const)))
unfolding comp
comp-tests e xp2 =
    ground (arith, difference-nil e.fields xp2.fields, same_const_iff e.has_const xp2.has_const)

-- Comp holds of two expressions exactly if they have the same fields and, unless they have none,
-- both have a constant or neither has. The fields of each stand once only.
pub comp_iff :
    (e xp2 : Expression)
    → IsValid e
    → IsValid xp2
    → (comp e xp2 ≡ true) ↔ (
        ((k : Bytes) → mem k e.fields ≡ mem k xp2.fields)
        × ((length e.fields ≡ 0) ⊎ (e.has_const ≡ xp2.has_const)))
comp_iff e xp2 n m =
    let (sized, equated) = same_fields-difference e.fields xp2.fields n m in
    let (tested, passed) = comp-tests e xp2 in
    (
      λ h. let (size, left, const) = tested h in (equated (size, left), const),
      λ (same, const). let (size, left) = sized same in passed (size, left, const),
    )
