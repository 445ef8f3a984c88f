-- ===== src/Text/Sorted.antt =====
-- `sorted_set` has the elements of the list, each once, in ascending order.
use Prim.Native.Nat.{Ordering}
use Prim.Native.String.{compare}
use Prim.Native.String.compare
use text.Mathlib.TextEquality.{path_by_compare}
use codelab_auth_service.Common.{String, ◌≡◌, refl, ap, ◌∙◌, ◌||◌, List, [], ◌∷◌, arith, ◌==◌, All}
use codelab_auth_service.Text.{contains, insert_sorted, sorted_set, place}

abbrev pub IsAscending : List String → Type 0
IsAscending [] = Unit
IsAscending (x ∷ []) = Unit
IsAscending (x ∷ y ∷ ys) = (compare x y ≡ Ordering.lt) × IsAscending (y ∷ ys)

flipped : Ordering → Ordering
flipped Ordering.lt = Ordering.gt
flipped Ordering.eq = Ordering.eq
flipped Ordering.gt = Ordering.lt

compare-flip : (x y : String) → compare y x ≡ flipped (compare x y)
unfolding flipped
compare-flip String.[] String.[] = refl
compare-flip String.[] (String.◌∷◌ d t) = rw (compare.nil-cons d t, compare.cons-nil d t)
compare-flip (String.◌∷◌ c s) String.[] = rw (compare.nil-cons c s, compare.cons-nil c s)
compare-flip (String.◌∷◌ c s) (String.◌∷◌ d t) =
    rw (compare.cons-cons d c t s, compare.cons-cons c d s t) (ground (arith, compare-flip s t))

contains-insert_sorted :
    (s x : String) (ys : List String) → contains (insert_sorted x ys) s ≡ (x == s || contains ys s)
unfolding contains insert_sorted
contains-insert_sorted s x [] = refl
contains-insert_sorted s x (y ∷ ys) = ground (
  arith,
  contains-insert_sorted s x ys,
  path_by_compare x y,
  ap (λ (z : String). z == s) {x = x} {y = y},
)

pub contains-sorted_set :
    (s : String) (xs : List String) → contains (sorted_set xs) s ≡ contains xs s
unfolding contains sorted_set
contains-sorted_set s [] = refl
contains-sorted_set s (x ∷ xs) =
    ground (arith, contains-insert_sorted s x (sorted_set xs), contains-sorted_set s xs)

All-place :
    (P : String → Type 0) (o : Ordering) (x y : String) (ys rest : List String)
    → P x
    → All P (y ∷ ys)
    → All P rest
    → All P (place o x y ys rest)
All-place P Ordering.lt x y ys rest p h r = (p, h)
All-place P Ordering.eq x y ys rest p h r = h
All-place P Ordering.gt x y ys rest p h r = (h.0, r)

All-insert_sorted :
    (P : String → Type 0) (x : String) (ys : List String)
    → P x
    → All P ys
    → All P (insert_sorted x ys)
unfolding insert_sorted
All-insert_sorted P x [] p h = (p, tt)
All-insert_sorted P x (y ∷ ys) p h =
    All-place P (compare x y) x y ys (insert_sorted x ys) p h (All-insert_sorted P x ys p h.1)

pub All-sorted_set : (P : String → Type 0) (xs : List String) → All P xs → All P (sorted_set xs)
unfolding sorted_set
All-sorted_set P [] h = tt
All-sorted_set P (x ∷ xs) h = All-insert_sorted P x (sorted_set xs) h.0 (All-sorted_set P xs h.1)

-- `y` may stand before the list.
abbrev IsBelow : String → List String → Type 0
IsBelow y [] = Unit
IsBelow y (z ∷ zs) = compare y z ≡ Ordering.lt

IsAscending-cons :
    (y : String) (ys : List String) → IsBelow y ys → IsAscending ys → IsAscending (y ∷ ys)
IsAscending-cons y [] b h = tt
IsAscending-cons y (z ∷ zs) b h = (b, h)

IsAscending-uncons :
    (y : String) (ys : List String) → IsAscending (y ∷ ys) → IsBelow y ys × IsAscending ys
IsAscending-uncons y [] h = (tt, tt)
IsAscending-uncons y (z ∷ zs) h = h

above_of_more : (x y : String) → compare x y ≡ Ordering.gt → compare y x ≡ Ordering.lt
above_of_more x y gt = compare-flip x y ∙ ap flipped gt ∙ unfold flipped in refl

IsBelow-place :
    (o : Ordering) (y x z : String) (zs rest : List String)
    → compare y x ≡ Ordering.lt
    → compare y z ≡ Ordering.lt
    → IsBelow y (place o x z zs rest)
IsBelow-place Ordering.lt y x z zs rest p q = p
IsBelow-place Ordering.eq y x z zs rest p q = q
IsBelow-place Ordering.gt y x z zs rest p q = q

IsBelow-insert_sorted :
    (y x : String) (ys : List String)
    → compare y x ≡ Ordering.lt
    → IsBelow y ys
    → IsBelow y (insert_sorted x ys)
unfolding insert_sorted
IsBelow-insert_sorted y x [] p b = p
IsBelow-insert_sorted y x (z ∷ zs) p b =
    IsBelow-place (compare x z) y x z zs (insert_sorted x zs) p b

IsAscending-place :
    (o : Ordering) (x y : String) (ys rest : List String)
    → compare x y ≡ o
    → IsAscending (y ∷ ys)
    → (compare x y ≡ Ordering.gt → IsAscending (y ∷ rest))
    → IsAscending (place o x y ys rest)
IsAscending-place Ordering.lt x y ys rest e h r = (e, h)
IsAscending-place Ordering.eq x y ys rest e h r = h
IsAscending-place Ordering.gt x y ys rest e h r = r e

insert_sorted-IsAscending :
    (x : String) (ys : List String) → IsAscending ys → IsAscending (insert_sorted x ys)
unfolding insert_sorted
insert_sorted-IsAscending x [] h = tt
insert_sorted-IsAscending x (y ∷ ys) h =
    let (b, h') = IsAscending-uncons y ys h in
    let inserted = insert_sorted-IsAscending x ys h' in
    IsAscending-place (compare x y) x y ys (insert_sorted x ys) refl h (λ gt.
      IsAscending-cons y (insert_sorted x ys)
        (IsBelow-insert_sorted y x ys (above_of_more x y gt) b) inserted)

pub sorted_set-IsAscending : (xs : List String) → IsAscending (sorted_set xs)
unfolding sorted_set
sorted_set-IsAscending [] = tt
sorted_set-IsAscending (x ∷ xs) =
    insert_sorted-IsAscending x (sorted_set xs) (sorted_set-IsAscending xs)

-- An ascending list is its own `sorted_set`.
pub sorted_set_ascending : (xs : List String) → IsAscending xs → sorted_set xs ≡ xs
unfolding sorted_set insert_sorted
sorted_set_ascending [] h = refl
sorted_set_ascending (x ∷ []) h = refl
sorted_set_ascending (x ∷ y ∷ ys) h =
    rw (sorted_set_ascending (y ∷ ys) h.1) (rw (h.0, insert_sorted))
