-- ===== src/Text.antt =====
-- Python's `str.split()`, `" ".join(…)` and `sorted(set(…))` on texts, which the services use.
pub mod Split
pub mod Sorted
pub mod Chars
use Prim.Native.Nat.{Ordering}
use Prim.Native.Char.{Char, code}
use Prim.Native.String.{compare}
use codelab_auth_service.Common.{
  ℕ, String, ◌<>◌, Bool, false, ◌&&◌, ◌||◌, List, [], ◌∷◌, leb, eqb, ◌==◌, if◌then◌else◌,
}

-- `str.isspace()` of one character.
unfoldable pub is_space : Char → Bool
is_space ch =
    let c = code ch in
    (leb 9 c && leb c 13)
    || ((leb 28 c && leb c 32)
        || (eqb c 133
            || (eqb c 160
                || (eqb c 5760
                    || ((leb 8192 c && leb c 8202)
                        || (eqb c 8232
                            || (eqb c 8233 || (eqb c 8239 || (eqb c 8287 || eqb c 12288)))))))))

-- The word that a text begins with, which is empty before a space, and the words behind it.
unfoldable pub scan : String → String × List String
unfolding is_space
scan String.[] = ("", [])
scan (String.◌∷◌ c s) =
    let (w, ws) = scan s in
    if is_space c then ("", if w == "" then ws else w ∷ ws) else (String.◌∷◌ c w, ws)

unfoldable pub split : String → List String
unfolding scan
split s = let (w, ws) = scan s in if w == "" then ws else w ∷ ws

unfoldable pub join : List String → String
join [] = ""
join (w ∷ []) = w
join (w ∷ v ∷ ws) = w <> (" " <> join (v ∷ ws))

unfoldable pub contains : List String → String → Bool
contains [] s = false
contains (x ∷ xs) s = x == s || contains xs s

-- Where `x` goes, before `y`, in its place, or behind it.
abbrev pub place : Ordering → String → String → List String → List String → List String
place Ordering.lt x y ys rest = x ∷ (y ∷ ys)
place Ordering.eq x y ys rest = y ∷ ys
place Ordering.gt x y ys rest = y ∷ rest

-- Insertion into an ascending list without repetitions.
unfoldable pub insert_sorted : String → List String → List String
insert_sorted x [] = x ∷ []
insert_sorted x (y ∷ ys) = place (compare x y) x y ys (insert_sorted x ys)

-- `sorted(set(xs))`
unfoldable pub sorted_set : List String → List String
sorted_set [] = []
sorted_set (x ∷ xs) = insert_sorted x (sorted_set xs)
