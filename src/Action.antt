-- ===== src/Action.antt =====
-- Methods that change an object and may return a status that is not ok: what was written before an
-- early return stays written. `do` blocks chain them as the code does with `if (!status.ok())`.
pub mod Keeps
use nimblefix.Common.{◌≡◌, ap, Bool, true, false, Option, none, some, if◌then◌else◌}
use nimblefix.Status.{Result, Status, ok, err, ErrorCode}

abbrev pub Action : Type 0 → Type 0 → Type 0
Action S A = S → S × Result A

module _ {S A : Type 0} where
  unfoldable pub pure : A → Action S A
  pure a s = (s, ok a)

  unfoldable pub fail : ErrorCode → Action S A
  fail e s = (s, err e)

  unfoldable pub give : Result A → Action S A
  give r s = (s, r)

  unfoldable pub gets : (S → A) → Action S A
  gets f s = (s, ok (f s))

module _ {S : Type 0} where
  unfoldable pub update : (S → S) → Action S (Unit {0})
  update f s = (f s, ok tt)

module _ {S A B : Type 0} where
  abbrev pub proceed : Result A → (A → Action S B) → Action S B
  proceed (ok a) f s = f a s
  proceed (err e) f s = (s, err e)

  infixl 5 ◌>>=◌ ◌>>◌
  unfoldable pub ◌>>=◌ : Action S A → (A → Action S B) → Action S B
  ◌>>=◌ m f s = let (s', r) = m s in proceed r f s'

  abbrev pub ◌>>◌ : Action S A → Action S B → Action S B
  m >> n = m >>= λ _. n

  -- The two ways that an optional value is taken apart.
  abbrev pub on_option : Option A → Action S B → (A → Action S B) → Action S B
  on_option none m f = m
  on_option (some a) m f = f a

module _ {S A B : Type 0} where
  -- What follows an action that succeeds.
  pub bind-ok :
      (m : Action S A) (f : A → Action S B) {s t : S} {a : A}
      → m s ≡ (t, ok a)
      → (m >>= f) s ≡ f a t
  unfolding ◌>>=◌
  bind-ok m f e = ap (λ out. proceed out.1 f out.0) e
