-- ===== src/Scenes/Mention/Effects.antt =====
-- Code that changes the state outside (GitLab, the sandbox, the agents) and may raise. The
-- exception of a run that an operator has ended is told apart from all others, which have a text.
use mathlib.Core.Path.{subst}
use open_review.Base.{◌≡◌, refl, Bool, true, false, ◌⊎◌, inl, inr, if◌then◌else◌}
use open_review.Base.Codes.{Codes}

pub data Fault : Type 0 where
  terminated : Fault
  failed : Codes → Fault

pub data Outcome (A : Type 0) : Type 0 where
  done : A → Outcome A
  fault : Fault → Outcome A

abbrev pub Action : Type 0 → Type 0 → Type 0
Action W A = W → Outcome A × W

abbrev pub bind_at : {W A B : Type 0} → Outcome A × W → (A → Action W B) → Outcome B × W
bind_at (done a, w) f = f a w
bind_at (fault e, w) f = (fault e, w)

infixl 5 ◌>>=◌ ◌>>◌
abbrev pub ◌>>=◌ : {W A B : Type 0} → Action W A → (A → Action W B) → Action W B
◌>>=◌ m f w = bind_at (m w) f

abbrev pub ◌>>◌ : {W B : Type 0} → Action W (Unit {0}) → Action W B → Action W B
◌>>◌ m k = m >>= λ _. k

abbrev pub pure : {W A : Type 0} → A → Action W A
pure a w = (done a, w)

abbrev pub raise : {W A : Type 0} → Fault → Action W A
raise e w = (fault e, w)

-- `try: m  except RunTerminationRequested: raise  except Exception as exc: h(exc)`
abbrev pub except_at : {W A : Type 0} → Outcome A × W → (Codes → Action W A) → Outcome A × W
except_at (done a, w) h = (done a, w)
except_at (fault terminated, w) h = (fault terminated, w)
except_at (fault (failed text), w) h = h text w

abbrev pub except : {W A : Type 0} → Action W A → (Codes → Action W A) → Action W A
except m h w = except_at (m w) h

-- `finally`: an exception of the block takes the place of what was there
abbrev pub finally_at : {W A : Type 0} → Outcome A → Outcome (Unit {0}) × W → Outcome A × W
finally_at out (done u, w) = (out, w)
finally_at out (fault e, w) = (fault e, w)

abbrev pub finally : {W A : Type 0} → Action W A → Action W (Unit {0}) → Action W A
finally m c w = let r = m w in finally_at r.0 (c r.1)

bind_at-done :
    {W A B : Type 0} (r : Outcome A × W) (f : A → Action W B) (b : B) (w' : W)
    → bind_at r f ≡ (done b, w')
    → (a : A) × (v : W) × (r ≡ (done a, v)) × (f a v ≡ (done b, w'))
bind_at-done (done a, v) f b w' h = (a, v, refl, h)
bind_at-done (fault e, v) f b w' h = cc

-- an action that returned was a chain of two that did
pub bind-done :
    {W A B : Type 0} (m : Action W A) (f : A → Action W B) (w : W) (b : B) (w' : W)
    → (m >>= f) w ≡ (done b, w')
    → (a : A) × (v : W) × (m w ≡ (done a, v)) × (f a v ≡ (done b, w'))
bind-done m f w b w' h = bind_at-done (m w) f b w' h

pub pure-done : {W A : Type 0} (a b : A) (w w' : W) → pure a w ≡ (done b, w') → (a ≡ b) × (w ≡ w')
pure-done a b w w' h = (cc, cc)

abbrev Returned : {W A : Type 0} → Outcome A × W → Type 0
Returned (done a, w) = Unit
Returned (fault e, w) = ⊥

-- what returns does not raise
pub pure-fault : {W A : Type 0} (a : A) (w : W) (e : Fault) (w' : W) → ¬ (pure a w ≡ (fault e, w'))
pure-fault a w e w' h = subst Returned h tt

bind_at-fault :
    {W A B : Type 0} (r : Outcome A × W) (f : A → Action W B) (e : Fault) (w' : W)
    → bind_at r f ≡ (fault e, w')
    → (r ≡ (fault e, w')) ⊎ (a : A) × (v : W) × (r ≡ (done a, v)) × (f a v ≡ (fault e, w'))
bind_at-fault (done a, v) f e w' h = inr (a, v, refl, h)
bind_at-fault (fault d, v) f e w' h = inl (cc)

-- a chain that raised did so in its first action or in its second
pub bind-fault :
    {W A B : Type 0} (m : Action W A) (f : A → Action W B) (w : W) (e : Fault) (w' : W)
    → (m >>= f) w ≡ (fault e, w')
    → (m w ≡ (fault e, w')) ⊎ (a : A) × (v : W) × (m w ≡ (done a, v)) × (f a v ≡ (fault e, w'))
bind-fault m f w e w' h = bind_at-fault (m w) f e w' h

-- from one state to another in steps of the given kind
pub data Reach {W : Type 0} (Step : W → W → Type 0) (from : W) : W → Type 0 where
  stay : Reach Step from from
  move : {v w : W} → Reach Step from v → Step v w → Reach Step from w

pub Reach-trans :
    {W : Type 0} (Step : W → W → Type 0) (u v w : W)
    → Reach Step u v
    → Reach Step v w
    → Reach Step u w
Reach-trans Step u v _ p stay = p
Reach-trans Step u v _ p (move q s) = move (Reach-trans Step u v _ p q) s

-- an action that, whether it returns or raises, changes the state in such steps alone
pub record Only {W A : Type 0} (Step : W → W → Type 0) (m : Action W A) : Type 0 where
  pub reaches : (w : W) → Reach Step w (m w).1

module _ {W : Type 0} {Step : W → W → Type 0} where
  pub step-Only : {A : Type 0} (m : Action W A) → ((w : W) → Step w (m w).1) → Only Step m
  step-Only m h = record { reaches = λ w. move stay (h w) }

  pub pure-Only : {A : Type 0} (a : A) → Only Step (pure a)
  pure-Only a = record { reaches = λ w. stay }

  bind_at-Only :
      {A B : Type 0} (u : W) (r : Outcome A × W) (f : A → Action W B)
      → Reach Step u r.1
      → ((a : A) → Only Step (f a))
      → Reach Step u (bind_at r f).1
  bind_at-Only u (done a, v) f p h = Reach-trans Step u v _ p ((h a).reaches v)
  bind_at-Only u (fault e, v) f p h = p

  pub bind-Only :
      {A B : Type 0} {m : Action W A} {f : A → Action W B}
      → Only Step m
      → ((a : A) → Only Step (f a))
      → Only Step (m >>= f)
  bind-Only {m = m} {f = f} p h = record { reaches = λ w. bind_at-Only w (m w) f (p.reaches w) h }

  pub if-Only :
      {A : Type 0} (b : Bool) {m n : Action W A}
      → Only Step m
      → Only Step n
      → Only Step (if b then m else n)
  if-Only true p q = p
  if-Only false p q = q

Reach-weaken :
    {W : Type 0} (S T : W → W → Type 0) (u v : W)
    → ((x y : W) → S x y → T x y)
    → Reach S u v
    → Reach T u v
Reach-weaken S T u _ f stay = stay
Reach-weaken S T u _ f (move p s) = move (Reach-weaken S T u _ f p) (f _ _ s)

pub Only-weaken :
    {W A : Type 0} {S T : W → W → Type 0} {m : Action W A}
    → ((x y : W) → S x y → T x y)
    → Only S m
    → Only T m
Only-weaken {S = S} {T = T} f p = record { reaches = λ w. Reach-weaken S T w _ f (p.reaches w) }
