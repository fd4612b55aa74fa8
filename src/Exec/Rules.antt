-- ===== src/Exec/Rules.antt =====
-- Postconditions of `Exec`, one rule for each way to build an action: `Q` holds of the value and the
-- state that it ends with, and `E` of the state where it fails.
use percona_link_mongodb.Prelude.{◌≡◌, refl, Bool, true, false, if◌then◌else◌}
use percona_link_mongodb.Errors.{Error}
use percona_link_mongodb.Exec.{Exec, Result, ok, fail, continue, ok_if, map_fail, on_fail, ◌>>=◌}

module _ {S A : Type 0} where
  unfoldable pub Holds : (A → S → Type 0) → (S → Type 0) → Result A × S → Type 0
  Holds Q E (ok a, s) = Q a s
  Holds Q E (fail e, s) = E s

  pub record Outcome (Q : A → S → Type 0) (E : S → Type 0) (r : Result A × S) : Type 0 where
    pub holds : Holds Q E r

module _ {S A : Type 0} {Q : A → S → Type 0} {E : S → Type 0} where
  pub Outcome-ok : (a : A) (s : S) → Q a s → Outcome Q E (ok a, s)
  unfolding Holds
  Outcome-ok a s h = record { holds = h }

  pub Outcome-fail : (e : Error) (s : S) → E s → Outcome Q E (fail e, s)
  unfolding Holds
  Outcome-fail e s h = record { holds = h }

  pub Outcome-ok_if :
      (b : Bool) (a : A) (e : Error) (s : S)
      → (b ≡ true → Q a s)
      → (b ≡ false → E s)
      → Outcome Q E (ok_if b a e, s)
  unfolding ok_if
  Outcome-ok_if true a e s q f = Outcome-ok a s (q refl)
  Outcome-ok_if false a e s q f = Outcome-fail e s (f refl)

  map_fail_lem :
      (f : Error → Error) (r : Result A) (s : S)
      → Outcome Q E (r, s)
      → Outcome Q E (map_fail f r, s)
  unfolding Holds
  map_fail_lem f (ok a) s h = Outcome-ok a s h.holds
  map_fail_lem f (fail e) s h = Outcome-fail (f e) s h.holds

  pub Outcome-on_fail :
      (f : Error → Error) (m : Exec S A) (s : S) → Outcome Q E (m s) → Outcome Q E (on_fail f m s)
  unfolding on_fail
  Outcome-on_fail f m s h = map_fail_lem f (m s).0 (m s).1 h

  pub Outcome-if :
      (b : Bool) (m n : Exec S A) (s : S)
      → (b ≡ true → Outcome Q E (m s))
      → (b ≡ false → Outcome Q E (n s))
      → Outcome Q E ((if b then m else n) s)
  Outcome-if true m n s km kn = km refl
  Outcome-if false m n s km kn = kn refl

module _ {S A : Type 0} {Q Q' : A → S → Type 0} {E E' : S → Type 0} where
  pub Outcome-weaken :
      (r : Result A) (s : S)
      → ((a : A) → Q a s → Q' a s)
      → (E s → E' s)
      → Outcome Q E (r, s)
      → Outcome Q' E' (r, s)
  unfolding Holds
  Outcome-weaken (ok a) s q e h = Outcome-ok a s (q a h.holds)
  Outcome-weaken (fail f) s q e h = Outcome-fail f s (e h.holds)

module _ {S A B : Type 0} {Q : A → S → Type 0} {R : B → S → Type 0} {E : S → Type 0} where
  joined :
      (f : A → Exec S B) (r : Result A) (s : S)
      → Outcome Q E (r, s)
      → ((a : A) (s' : S) → Q a s' → Outcome R E (f a s'))
      → Outcome R E (continue r f s)
  unfolding Holds
  joined f (ok a) s h k = k a s h.holds
  joined f (fail e) s h k = Outcome-fail e s h.holds

  pub Outcome-bind :
      (m : Exec S A) (f : A → Exec S B) (s : S)
      → Outcome Q E (m s)
      → ((a : A) (s' : S) → Q a s' → Outcome R E (f a s'))
      → Outcome R E ((m >>= f) s)
  unfolding ◌>>=◌
  Outcome-bind m f s h k = joined f (m s).0 (m s).1 h k
