-- ===== src/Commands.antt =====
-- Sequences of calls under one `try`, of a server or of the database: the first that raises ends the
-- sequence, and what the earlier ones have written stays written.
use codelab_auth_service.Common.{◌≡◌, refl, ap, Option, none, some}

module _ {S A B : Type 0} where
  infixl 5 ◌>>=◌
  abbrev pub ◌>>=◌ : (S → Option A × S) → (A → S → Option B × S) → S → Option B × S
  ◌>>=◌ m f s = let (reply, s') = m s in elim reply [ none ↦ (none, s') | some a ↦ f a s' ]

module _ {S B : Type 0} where
  infixl 5 ◌>>◌
  abbrev pub ◌>>◌ : (S → Option (Unit {0}) × S) → (S → Option B × S) → S → Option B × S
  m >> k = m >>= λ _. k

abbrev pub pure : {S A : Type 0} → A → S → Option A × S
pure a s = (some a, s)

-- The value that the handler of the `try` returns in place of a reply that did not come.
abbrev pub or_else : {S A : Type 0} → A → Option A × S → A × S
or_else a (none, s) = (a, s)
or_else a (some b, s) = (b, s)

-- The handler leaves the state as it is, and a reply too.
pub or_else_state : {S A : Type 0} (a : A) (r : Option A × S) → (or_else a r).1 ≡ r.1
or_else_state a (none, s) = refl
or_else_state a (some b, s) = refl

pub or_else_reply : {S A : Type 0} (a b : A) (r : Option A × S) → r.0 ≡ some b → (or_else a r).0 ≡ b
or_else_reply a b (none, s) e = cc e
or_else_reply a b (some c, s) e = cc e

-- A sequence goes on after a command that replies, and ends with one that raises.
module _ {S A B : Type 0} (m : S → Option A × S) (f : A → S → Option B × S) where
  pub >>=-reply : (s s' : S) (a : A) → m s ≡ (some a, s') → (m >>= f) s ≡ f a s'
  >>=-reply s s' a e =
      ap (λ (r : Option A × S). elim r.0 [ none ↦ (none, r.1) | some b ↦ f b r.1 ]) e

  pub >>=-raise : (s s' : S) → m s ≡ (none, s') → (m >>= f) s ≡ (none, s')
  >>=-raise s s' e = ap (λ (r : Option A × S). elim r.0 [ none ↦ (none, r.1) | some b ↦ f b r.1 ]) e

-- A command after which `P` holds of the state, if it held before.
abbrev pub Keeps : {S A : Type 0} → (S → Type 0) → (S → Option A × S) → Type 0
Keeps {S = S} P m = (s : S) → P s → P (m s).1

module _ {S A B : Type 0} (P : S → Type 0) (f : A → S → Option B × S)
    (k : (a : A) → Keeps P (f a)) where
  bound :
      (r : Option A × S)
      → P r.1
      → P (elim r.0 as (λ _. Option B × S) [ none ↦ (none, r.1) | some b ↦ f b r.1 ]).1
  bound (none, s) p = p
  bound (some a, s) p = k a s p

  pub >>=-Keeps : (m : S → Option A × S) → Keeps P m → Keeps P (m >>= f)
  >>=-Keeps m km s p = bound (m s) (km s p)

-- A sequence that ends with a reply: what its first command and the rest have replied.
module _ {S A B : Type 0} (m : S → Option A × S) (f : A → S → Option B × S) where
  split_reply :
      (r : Option A × S) (b : B) (s' : S)
      → elim r.0 as (λ _. Option B × S) [ none ↦ (none, r.1) | some a ↦ f a r.1 ] ≡ (some b, s')
      → (a : A) × (s1 : S) × (r ≡ (some a, s1)) × (f a s1 ≡ (some b, s'))
  split_reply (none, s1) b s' e = cc (ap (λ (r : Option B × S). r.0) e)
  split_reply (some a, s1) b s' e = (a, s1, refl, e)

  pub >>=-inverse :
      (s s' : S) (b : B)
      → (m >>= f) s ≡ (some b, s')
      → (a : A) × (s1 : S) × (m s ≡ (some a, s1)) × (f a s1 ≡ (some b, s'))
  >>=-inverse s s' b e = split_reply (m s) b s' e
