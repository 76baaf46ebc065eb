-- ===== src/Utils/Header.antt =====
-- src/utils/header_utils.cpp: a header by its name, in whatever case. The map is the list of its
-- entries in the order in which the container is walked.
use libspaznet.Base.{
  ◌==◌, if◌then◌else◌, ==_iff, Bool-cases, Option-cases, Bytes, length, All, ℕ, suc, ◌+◌, ◌≤◌, ◌≡◌,
  refl, ap, ◌↔◌, ◌⊎◌, inl, inr, Bool, true, false, ◌&&◌, Option, none, some, List, [], ◌∷◌, ◌++◌,
  arith,
}
use libspaznet.Utils.Text.{lower, to_lower}

abbrev pub Headers : Type 0
Headers = List (Bytes × Bytes)

-- `==` of two strings.
unfoldable pub same_text : Bytes → Bytes → Bool
same_text [] [] = true
same_text [] (y ∷ ys) = false
same_text (x ∷ xs) [] = false
same_text (x ∷ xs) (y ∷ ys) = (x == y) && same_text xs ys

-- The loop of `ascii_iequals`; the sizes are equal.
unfoldable pub same_letters : Bytes → Bytes → Bool
same_letters [] ys = true
same_letters (x ∷ xs) [] = true
same_letters (x ∷ xs) (y ∷ ys) = (lower x == lower y) && same_letters xs ys

unfoldable pub ascii_iequals : Bytes → Bytes → Bool
ascii_iequals lhs rhs = if length lhs == length rhs then same_letters lhs rhs else false

-- The first entry whose key passes a test.
unfoldable pub find_by : (Bytes → Bool) → Headers → Option Bytes
find_by test [] = none
find_by test ((key, value) ∷ rest) =
    let later = find_by test rest in if test key then some value else later

unfoldable pub get_header_case_insensitive : Headers → Bytes → Option Bytes
get_header_case_insensitive headers name = elim (find_by (λ key. same_text key name) headers) [
  | some value ↦ some value
  | none ↦ find_by (λ key. ascii_iequals key name) headers
]

pub same_text_iff : (xs ys : Bytes) → (same_text xs ys ≡ true) ↔ (xs ≡ ys)
unfolding same_text
same_text_iff [] [] = ((λ e. refl), λ e. refl)
same_text_iff [] (y ∷ ys) = ((λ e. cc e), λ e. cc e)
same_text_iff (x ∷ xs) [] = ((λ e. cc e), λ e. cc e)
same_text_iff (x ∷ xs) (y ∷ ys) = (
  (λ e.
      let (h, t) : (x ≡ y) × (same_text xs ys ≡ true) = ground arith in
      cc (h, (same_text_iff xs ys).0 t)),
  λ e. let h : x ≡ y = cc e in let t : xs ≡ ys = cc e in ground (arith, (same_text_iff xs ys).1 t),
)

letters_iff :
    (xs ys : Bytes)
    → length xs ≡ length ys
    → (same_letters xs ys ≡ true) ↔ (to_lower xs ≡ to_lower ys)
unfolding same_letters to_lower
letters_iff [] [] h = ((λ e. refl), λ e. refl)
letters_iff [] (y ∷ ys) h = absurd (omega arith)
letters_iff (x ∷ xs) [] h = absurd (omega arith)
letters_iff (x ∷ xs) (y ∷ ys) h = (
  (λ e.
      let (a, t) : (lower x ≡ lower y) × (same_letters xs ys ≡ true) = ground arith in
      cc (a, (letters_iff xs ys (omega arith)).0 t)),
  λ e.
      let a : lower x ≡ lower y = cc e in
      let t : to_lower xs ≡ to_lower ys = cc e in
      ground (arith, (letters_iff xs ys (omega arith)).1 t),
)

length-to_lower : (xs : Bytes) → length (to_lower xs) ≡ length xs
unfolding to_lower
length-to_lower [] = refl
length-to_lower (x ∷ xs) = ap suc (length-to_lower xs)

-- Equal as HTTP compares names.
pub ascii_iequals_iff : (xs ys : Bytes) → (ascii_iequals xs ys ≡ true) ↔ (to_lower xs ≡ to_lower ys)
unfolding ascii_iequals
ascii_iequals_iff xs ys = elim (Bool-cases (length xs == length ys)) [
  | inl e ↦ rw e (letters_iff xs ys ((==_iff (length xs) (length ys)).0 e))
  | inr e ↦ rw e (
    (λ no. cc no),
    λ same. absurd (
        ground
          (arith, length-to_lower xs, length-to_lower ys, ap (λ (zs : Bytes). length zs) same)),
  )
]

-- Two bytes that are the same, or a capital letter and its small one.
abbrev pub SameLetter : ℕ → ℕ → Type 0
SameLetter x y =
    (x ≡ y) ⊎ (((65 ≤ x) × (x ≤ 90) × (y ≡ x + 32)) ⊎ ((65 ≤ y) × (y ≤ 90) × (x ≡ y + 32)))

-- Two texts of one length, with the same letters in whatever case.
abbrev pub SameButCase : Bytes → Bytes → Type 0
SameButCase [] [] = Unit
SameButCase [] (y ∷ ys) = ⊥
SameButCase (x ∷ xs) [] = ⊥
SameButCase (x ∷ xs) (y ∷ ys) = SameLetter x y × SameButCase xs ys

lower_iff : (x y : ℕ) → (lower x ≡ lower y) ↔ SameLetter x y
unfolding lower
lower_iff x y = ((λ e. ground (arith, e)), λ h. ground (arith, h))

to_lower_iff : (xs ys : Bytes) → (to_lower xs ≡ to_lower ys) ↔ SameButCase xs ys
unfolding to_lower
to_lower_iff [] [] = ((λ e. tt), λ h. refl)
to_lower_iff [] (y ∷ ys) = ((λ e. absurd (cc e)), λ h. absurd h)
to_lower_iff (x ∷ xs) [] = ((λ e. absurd (cc e)), λ h. absurd h)
to_lower_iff (x ∷ xs) (y ∷ ys) = (
  (λ e.
      let a : lower x ≡ lower y = cc e in
      let t : to_lower xs ≡ to_lower ys = cc e in ((lower_iff x y).0 a, (to_lower_iff xs ys).0 t)),
  λ (h, t). cc ((lower_iff x y).1 h, (to_lower_iff xs ys).1 t),
)

iequals_iff : (xs ys : Bytes) → (ascii_iequals xs ys ≡ true) ↔ SameButCase xs ys
iequals_iff xs ys = (
  (λ e. (to_lower_iff xs ys).0 ((ascii_iequals_iff xs ys).0 e)),
  λ h. (ascii_iequals_iff xs ys).1 ((to_lower_iff xs ys).1 h),
)

-- No key is as `P` says.
abbrev pub None : (Bytes → Type 0) → Headers → Type 0
None P headers = All (λ h. ¬ P h.0) headers

-- The value stands in the map under a key that is as `P` says, and no key before it is.
abbrev pub Chosen : (Bytes → Type 0) → Headers → Bytes → Type 0
Chosen P headers value =
    (before : Headers) × (key : Bytes) × (after : Headers) × (headers
      ≡ before ++ (key, value) ∷ after)
    × P key
    × None P before

-- A test for what `P` says.
module _ (test : Bytes → Bool) (P : Bytes → Type 0)
    (tests : (key : Bytes) → (test key ≡ true) ↔ P key) where
  fails : (key : Bytes) → test key ≡ false → ¬ P key
  fails key n p = cc (n, (tests key).1 p)

  find_by-some :
      (headers : Headers) (value : Bytes)
      → find_by test headers ≡ some value
      → Chosen P headers value
  unfolding find_by
  find_by-some [] value e = absurd (cc e)
  find_by-some ((key, v) ∷ rest) value e = elim (Bool-cases (test key)) [
    | inl y ↦
        let same : v ≡ value = cc (rw y at e) in ([], key, rest, rw same refl, (tests key).0 y, tt)
    | inr n ↦
        let (before, k, after, split, passes, first) = find_by-some rest value (rw n at e) in
        ((key, v) ∷ before, k, after, ap (◌∷◌ (key, v)) split, passes, (fails key n, first))
  ]

  find_by-none : (headers : Headers) → find_by test headers ≡ none → None P headers
  unfolding find_by
  find_by-none [] e = tt
  find_by-none ((key, v) ∷ rest) e = elim (Bool-cases (test key)) [
    | inl y ↦ absurd (cc (rw y at e))
    | inr n ↦ (fails key n, find_by-none rest (rw n at e))
  ]

-- What the lookup owes its caller: an exact key, else a key with the same letters, else nothing.
abbrev pub Answers : Headers → Bytes → Option Bytes → Type 0
Answers headers name none = None (λ key. SameButCase key name) headers
Answers headers name (some value) =
    Chosen (λ key. key ≡ name) headers value
    ⊎ (Chosen (λ key. SameButCase key name) headers value × None (λ key. key ≡ name) headers)

-- `get_header_case_insensitive` answers the value of the key that is the name exactly, if there is
-- one; otherwise the value of the first key, in the order of the map, that is as long as the name and
-- differs from it only in having the capital of a letter or the small one; and it answers nothing only
-- where no key is the name in any case.
pub get_header-Answers :
    (headers : Headers) (name : Bytes)
    → Answers headers name (get_header_case_insensitive headers name)
unfolding get_header_case_insensitive
get_header-Answers headers name =
    let exact = λ (key : Bytes). same_text key name in
    let loose = λ (key : Bytes). ascii_iequals key name in
    let exact_iff = λ (key : Bytes). same_text_iff key name in
    let loose_iff = λ (key : Bytes). iequals_iff key name in
    elim (Option-cases (find_by exact headers)) [
      | inr (value, found) ↦
          rw (found, get_header_case_insensitive)
            (inl (find_by-some exact (λ key. key ≡ name) exact_iff headers value found))
      | inl missing ↦
          let no_exact = find_by-none exact (λ key. key ≡ name) exact_iff headers missing in
          rw (missing, get_header_case_insensitive)
            (elim (Option-cases (find_by loose headers)) [
              | inl none_at_all ↦
                  rw none_at_all
                    (find_by-none loose (λ key. SameButCase key name) loose_iff headers none_at_all)
              | inr (value, found) ↦ rw found (
                  inr (
                    find_by-some loose (λ key. SameButCase key name) loose_iff headers value found,
                    no_exact,
                  ))
            ])
    ]
