-- ===== src/Puller/Builder/Laws.antt =====
-- puller/builder.go: what follows from a call that returned a value.
use tezos_index.Common.{◌≡◌, refl, List, ◌++◌, ap, sym, subst, Bool, true, false, if◌then◌else◌}
use tezos_index.Models.Flow.{Flow}
use tezos_index.Puller.Builder.{Builder, Outcome, ok, err, panic, ◌>>=◌, commit}

pub >>=-eq-ok :
    {A B : Type 0} (m : Outcome A) (f : A → Outcome B) (r : B)
    → (m >>= f) ≡ ok r
    → (a : A) × (m ≡ ok a) × (f a ≡ ok r)
>>=-eq-ok (ok a) f r e = (a, refl, e)
>>=-eq-ok (err x) f r e = cc
>>=-eq-ok panic f r e = cc

pub ok-injective : {A : Type 0} {a b : A} → ok a ≡ ok b → a ≡ b
ok-injective e = cc

pub commit-eq-ok :
    (b b' : Builder) (made flows : List Flow)
    → commit b made ≡ ok (b', flows)
    → (made ≡ flows) × (b'.block.flows ≡ b.block.flows ++ flows)
unfolding commit
commit-eq-ok b b' made flows e =
    let pair = ok-injective e in
    (
      ap (λ (p : Builder × List Flow). p.1) pair,
      rw (← ap (λ (p : Builder × List Flow). p.1) pair)
          (sym (ap (λ (p : Builder × List Flow). p.0.block.flows) pair)),
    )

-- What holds of the value, where there is one.
abbrev pub Ends : {A : Type 0} → (A → Type 0) → Outcome A → Type 0
Ends P (ok a) = P a
Ends P (err x) = Unit {0}
Ends P panic = Unit {0}

module _ {A : Type 0} (P : A → Type 0) where
  pub Ends-ok : (o : Outcome A) (a : A) → Ends P o → o ≡ ok a → P a
  Ends-ok o a p e = subst (Ends P) e p

  pub ok-Ends : (o : Outcome A) (a : A) → o ≡ ok a → P a → Ends P o
  ok-Ends o a e p = subst (Ends P) (sym e) p

  pub Ends-if : (b : Bool) (x y : Outcome A) → Ends P x → Ends P y → Ends P (if b then x else y)
  Ends-if true x y p q = p
  Ends-if false x y p q = q

  pub Ends-bind :
      {B : Type 0} (Q : B → Type 0) (o : Outcome B) (f : B → Outcome A)
      → Ends Q o
      → ((b : B) → Q b → Ends P (f b))
      → Ends P (o >>= f)
  Ends-bind Q (ok b) f p k = k b p
  Ends-bind Q (err x) f p k = tt
  Ends-bind Q panic f p k = tt

  pub Ends-each :
      {B : Type 0} (o : Outcome B) (f : B → Outcome A) → ((b : B) → Ends P (f b)) → Ends P (o >>= f)
  Ends-each (ok b) f k = k b
  Ends-each (err x) f k = tt
  Ends-each panic f k = tt

  pub Ends-weaken : (Q : A → Type 0) (o : Outcome A) → Ends P o → ((a : A) → P a → Q a) → Ends Q o
  Ends-weaken Q (ok a) p k = k a p
  Ends-weaken Q (err x) p k = tt
  Ends-weaken Q panic p k = tt
