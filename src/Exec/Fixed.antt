-- ===== src/Exec/Fixed.antt =====
-- Lemmas on the methods of Exec: those that leave a value that is read off the state as it is.
use provider_engine.Base.{◌≡◌, refl, ◌∙◌, ap}
use provider_engine.Errors.{Error}
use provider_engine.Exec.{Result, ok, err, Exec, pure, rewrap, map_error, continue, ◌>>=◌}

pub record Fixes {S A V : Type 0} (f : S → V) (x : Exec S A) : Type 0 where
  pub at : (s : S) → f (x s).1 ≡ f s

module _ {S A V : Type 0} {f : S → V} where
  pub Fixes-pure : (a : A) → Fixes f (pure a)
  Fixes-pure a = record { at = λ s. refl }

module _ {S A : Type 0} where
  pub rewrapped : (g : Error → Error) (r : Result A × S) → (rewrap g r).1 ≡ r.1
  rewrapped g (ok a, s) = refl
  rewrapped g (err e, s) = refl

module _ {S A V : Type 0} {f : S → V} where
  pub Fixes-map_error : (g : Error → Error) (x : Exec S A) → Fixes f x → Fixes f (map_error g x)
  Fixes-map_error g x k = record { at = λ s. ap f (rewrapped g (x s)) ∙ k.at s }

module _ {S A B V : Type 0} {f : S → V} where
  Fixes-continue :
      (r : Result A) (g : A → Exec S B)
      → ((a : A) → Fixes f (g a))
      → Fixes f (λ s. continue g (r, s))
  Fixes-continue (ok a) g k = k a
  Fixes-continue (err e) g k = record { at = λ s. refl }

  pub Fixes-bind :
      (x : Exec S A) (g : A → Exec S B) → Fixes f x → ((a : A) → Fixes f (g a)) → Fixes f (x >>= g)
  Fixes-bind x g k l = record {
    at = λ s. let (r, s') = x s in (Fixes-continue r g l).at s' ∙ k.at s;
  }

pub ruleset fixes_rules = (Fixes-pure, Fixes-map_error, Fixes-bind)
