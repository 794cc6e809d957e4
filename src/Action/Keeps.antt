-- ===== src/Action/Keeps.antt =====
-- What holds after an action, however it returns, if something holds before it: one rule for each
-- way to build an action.
use nimblefix.Common.{◌≡◌, refl, Bool, true, false, Option, none, some, if◌then◌else◌}
use nimblefix.Status.{Result, ok, err, ErrorCode}
use nimblefix.Action.{Action, pure, fail, give, gets, update, ◌>>=◌, on_option, proceed}

pub record Ensures {S A : Type 0} (P Q : S → Type 0) (m : Action S A) : Type 0 where
  pub at : (s : S) → P s → Q (m s).0

-- The action keeps `P`.
abbrev pub Keeps : {S A : Type 0} → (S → Type 0) → Action S A → Type 0
Keeps P m = Ensures P P m

module _ {S A : Type 0} {P : S → Type 0} where
  pub Keeps-pure : (a : A) → Keeps P (pure a)
  unfolding pure
  Keeps-pure a = record { at = λ s h. h }

  pub Keeps-fail : (e : ErrorCode) → Keeps P (fail {A = A} e)
  unfolding fail
  Keeps-fail e = record { at = λ s h. h }

  pub Keeps-give : (r : Result A) → Keeps P (give r)
  unfolding give
  Keeps-give r = record { at = λ s h. h }

  pub Keeps-gets : (f : S → A) → Keeps P (gets f)
  unfolding gets
  Keeps-gets f = record { at = λ s h. h }

module _ {S : Type 0} {P : S → Type 0} where
  pub Keeps-update : (f : S → S) → ((s : S) → P s → P (f s)) → Keeps P (update f)
  unfolding update
  Keeps-update f k = record { at = k }

module _ {S A : Type 0} {P Q : S → Type 0} where
  pub Ensures-if :
      (b : Bool) (m n : Action S A)
      → (b ≡ true → Ensures P Q m)
      → (b ≡ false → Ensures P Q n)
      → Ensures P Q (if b then m else n)
  Ensures-if true m n hm hn = hm refl
  Ensures-if false m n hm hn = hn refl

  -- A weaker end.
  pub Ensures-weaken : {m : Action S A} → ((s : S) → P s → Q s) → Keeps P m → Ensures P Q m
  Ensures-weaken w k = record { at = λ s h. w _ (k.at s h) }

module _ {S A B : Type 0} {P Q : S → Type 0} where
  pub Ensures-on_option :
      (o : Option A) (m : Action S B) (f : A → Action S B)
      → Ensures P Q m
      → ((a : A) → o ≡ some a → Ensures P Q (f a))
      → Ensures P Q (on_option o m f)
  Ensures-on_option none m f hm hf = hm
  Ensures-on_option (some a) m f hm hf = hf a refl

  pub Ensures-bind :
      (m : Action S A) (f : A → Action S B)
      → ((s : S) → P s → Q s)
      → Keeps P m
      → ((a : A) → Ensures P Q (f a))
      → Ensures P Q (m >>= f)
  unfolding ◌>>=◌
  Ensures-bind m f w km kf = record { at = λ s h. follow (m s) (km.at s h) }
    where
      follow : (out : S × Result A) → P out.0 → Q (proceed out.1 f out.0).0
      follow (t, ok a) h = (kf a).at t h
      follow (t, err e) h = w t h

  -- The rest may use what holds of the state that is read.
  pub Ensures-read :
      (g : S → A) (f : A → Action S B)
      → ((s : S) → P s → Ensures P Q (f (g s)))
      → Ensures P Q (gets g >>= f)
  unfolding gets ◌>>=◌
  Ensures-read g f kf = record { at = λ s h. (kf s h).at s h }

module _ {S A B : Type 0} {P : S → Type 0} where
  pub Keeps-bind :
      (m : Action S A) (f : A → Action S B)
      → Keeps P m
      → ((a : A) → Keeps P (f a))
      → Keeps P (m >>= f)
  Keeps-bind m f = Ensures-bind m f (λ s h. h)

pub ruleset keeps_rules = (
  Keeps-pure, Keeps-fail, Keeps-give, Keeps-gets, Keeps-update, Ensures-if, Ensures-on_option,
  Keeps-bind,
)
