-- ===== src/Http2/Hpack/Order.antt =====
-- The order of `encode_headers` is one of the same entries, and assigning entries of different names
-- one after the other lists them.
use mathlib.Core.Logic.Or
use mathlib.Core.HLevel.{¬_prop}
use mathlib.Core.List.{Mem, Perm, Pairwise, mem-cons, not-mem-nil, perm_middle}
use mathlib.Core.List.Perm
use libspaznet.Base.{
  Bool-cases, Bytes, All, All-append, ◌≡◌, refl, sym, ap, ◌∙◌, ◌≢◌, inl, inr, Bool, not, some, [],
  ◌∷◌, ◌++◌, append-nil, append_assoc,
}
use libspaznet.Utils.Header.{Headers, same_text, same_text_iff}
use libspaznet.Http2.Hpack.Encode.{place, sort, keep, is_pseudo, ordered, before_entry}
use libspaznet.Http2.Hpack.Decode.{assign, store}

abbrev pub Differ : Bytes × Bytes → Bytes × Bytes → Type 0
Differ a b = a.0 ≢ b.0

-- No two entries with the same name: the entries of a map.
abbrev pub Distinct : Headers → Type 0
Distinct [] = Unit
Distinct (e ∷ rest) = All (Differ e) rest × Distinct rest

place-perm : (e : Bytes × Bytes) (l : Headers) → Perm (place e l) (e ∷ l)
unfolding place
place-perm e [] = Perm.refl (e ∷ [])
place-perm e (o ∷ rest) = elim (Bool-cases (before_entry o e)) [
  | inl later ↦ rw later (Perm.trans (Perm.cons o (place-perm e rest)) (Perm.swap e o rest))
  | inr here ↦ rw here (Perm.refl (e ∷ o ∷ rest))
]

sort-perm : (l : Headers) → Perm (sort l) l
unfolding sort
sort-perm [] = Perm.refl []
sort-perm (e ∷ rest) = Perm.trans (place-perm e (sort rest)) (Perm.cons e (sort-perm rest))

keep-perm : (p : Bytes × Bytes → Bool) (l : Headers) → Perm (keep p l ++ keep (λ e. not (p e)) l) l
unfolding keep
keep-perm p [] = Perm.refl []
keep-perm p (e ∷ rest) = elim (Bool-cases (p e)) [
  | inl kept ↦ rw kept (Perm.cons e (keep-perm p rest))
  | inr other ↦ rw other (
      Perm.trans (perm_middle (keep p rest) (keep (λ e. not (p e)) rest))
        (Perm.cons e (keep-perm p rest)))
]

pub ordered-perm : (l : Headers) → Perm (ordered l) l
unfolding ordered
ordered-perm l =
    Perm.trans
      (Perm.append (sort-perm (keep is_pseudo l)) (sort-perm (keep (λ e. not (is_pseudo e)) l)))
      (keep-perm is_pseudo l)

module _ (P : Bytes × Bytes → Type 0) where
  All-place : (e : Bytes × Bytes) (l : Headers) → P e → All P l → All P (place e l)
  unfolding place
  All-place e [] h hs = (h, tt)
  All-place e (o ∷ rest) h (ho, hs) = elim (Bool-cases (before_entry o e)) [
    | inl later ↦ rw later (ho, All-place e rest h hs)
    | inr here ↦ rw here (h, (ho, hs))
  ]

  All-sort : (l : Headers) → All P l → All P (sort l)
  unfolding sort
  All-sort [] hs = tt
  All-sort (e ∷ rest) (h, hs) = All-place e (sort rest) h (All-sort rest hs)

  All-keep : (p : Bytes × Bytes → Bool) (l : Headers) → All P l → All P (keep p l)
  unfolding keep
  All-keep p [] hs = tt
  All-keep p (e ∷ rest) (h, hs) = elim (Bool-cases (p e)) [
    | inl kept ↦ rw kept (h, All-keep p rest hs)
    | inr other ↦ rw other (All-keep p rest hs)
  ]

  pub All-ordered : (l : Headers) → All P l → All P (ordered l)
  unfolding ordered
  All-ordered l h =
      All-append P (sort (keep is_pseudo l)) (sort (keep (λ e. not (is_pseudo e)) l))
        (All-sort (keep is_pseudo l) (All-keep is_pseudo l h))
        (All-sort (keep (λ e. not (is_pseudo e)) l) (All-keep (λ e. not (is_pseudo e)) l h))

Differ-mem : (e a : Bytes × Bytes) (l : Headers) → All (Differ e) l → Mem a l → Differ e a
Differ-mem e a [] h m = absurd (not-mem-nil m)
Differ-mem e a (x ∷ l) (h, hs) m =
    Or.elim ¬_prop (mem-cons.0 m) (λ same. rw same h) (Differ-mem e a l hs)

All-mem :
    (e : Bytes × Bytes) (l : Headers)
    → ((a : Bytes × Bytes) → Mem a l → Differ e a)
    → All (Differ e) l
All-mem e [] h = tt
All-mem e (x ∷ l) h =
    (h x (mem-cons.1 (Or.inl refl)), All-mem e l λ a m. h a (mem-cons.1 (Or.inr m)))

Distinct-Pairwise : (l : Headers) → Distinct l → Pairwise Differ l
Distinct-Pairwise [] h = Pairwise.nil
Distinct-Pairwise (e ∷ rest) (h, hs) =
    Pairwise.cons (λ a m. Differ-mem e a rest h m) (Distinct-Pairwise rest hs)

Pairwise-Distinct : (l : Headers) → Pairwise Differ l → Distinct l
Pairwise-Distinct [] h = tt
Pairwise-Distinct (e ∷ rest) (Pairwise.cons h hs) = (All-mem e rest h, Pairwise-Distinct rest hs)

pub Distinct-perm : (l m : Headers) → Perm l m → Distinct m → Distinct l
Distinct-perm l m p h = Pairwise-Distinct l (
    Perm.pairwise {R = Differ} (λ a b. ¬_prop) (λ a b n e. n (sym e)) (Perm.symm p)
      (Distinct-Pairwise m h))

-- Assignments, one after the other.
abbrev pub assign_all : Headers → Headers → Headers
assign_all [] headers = headers
assign_all (e ∷ rest) headers = assign_all rest (store (some e) headers)

assign-new :
    (name value : Bytes) (headers : Headers)
    → All (λ e. e.0 ≢ name) headers
    → assign name value headers ≡ headers ++ (name, value) ∷ []
unfolding assign
assign-new name value [] h = refl
assign-new name value ((k, v) ∷ rest) (h, hs) = elim (Bool-cases (same_text k name)) [
  | inl same ↦ absurd (h ((same_text_iff k name).0 same))
  | inr other ↦ rw other (ap (◌∷◌ (k, v)) (assign-new name value rest hs))
]

-- No entry of the one has the name of an entry of the other.
abbrev pub Apart : Headers → Headers → Type 0
Apart headers [] = Unit
Apart headers (e ∷ rest) = All (λ o. o.0 ≢ e.0) headers × Apart headers rest

Apart-snoc :
    (headers : Headers) (e : Bytes × Bytes) (rest : Headers)
    → Apart headers rest
    → All (Differ e) rest
    → Apart (headers ++ e ∷ []) rest
Apart-snoc headers e [] a h = tt
Apart-snoc headers e (o ∷ rest) (a, others) (h, hs) =
    (All-append (λ x. x.0 ≢ o.0) headers (e ∷ []) a (h, tt), Apart-snoc headers e rest others hs)

pub assign_all-append :
    (es headers : Headers) → Distinct es → Apart headers es → assign_all es headers ≡ headers ++ es
assign_all-append [] headers d a = sym (append-nil headers)
assign_all-append ((name, value) ∷ rest) headers (h, hs) (a, others) =
    rw (assign-new name value headers a) (
      assign_all-append rest (headers ++ (name, value) ∷ []) hs
        (Apart-snoc headers (name, value) rest others h)
      ∙ append_assoc headers ((name, value) ∷ []) rest)

pub Apart-nil : (es : Headers) → Apart [] es
Apart-nil [] = tt
Apart-nil (e ∷ rest) = (tt, Apart-nil rest)
